-- ===== src/Notifier/Delivery.antt =====
-- The retries of internal/notifier/retry.go: how many calls, which one decides, and the sleeps.
use sleigh.Prelude.{
  ℕ, zero, suc, ◌+◌, ◌*◌, ◌≤◌, ◌<◌, Bool, true, false, ◌≡◌, refl, ap, ◌∙◌, Option, arith, length,
  sym, subst, eqb, eqb_iff, Bool-cases, inl, inr, ◌⊎◌, leb,
}
use Prim.Native.Nat.{◌^◌, min}
use native.Mathlib.Nat.{pow-succ', mul_assoc, mul_comm}
use sleigh.Prelude.Int.{pos, pos_part, ◌+ℤ◌}
use sleigh.Prelude.Machine.{add_int64}
use sleigh.Notifier.{
  RetryOptions, ReportError, Outcome, should_retry, deliver_from, deliver, double_up, backoff,
}

extend :
    (p : ℕ → Bool) (a b : ℕ)
    → p a ≡ true
    → ((j : ℕ) → a + 1 ≤ j → j < b → p j ≡ true)
    → (j : ℕ) → a ≤ j
    → j < b
    → p j ≡ true
extend p a b h k j l m = elim (Bool-cases (eqb j a)) [
  | inl e ↦ subst (λ x. p x ≡ true) (sym ((eqb_iff j a).0 e)) h
  | inr e ↦ k j (ground (arith, l, e)) m
]

module _ (opts : RetryOptions) (report : ℕ → Option ReportError) where
  -- A run that started at call `retry` with `left` more retries and ended as `out`.
  pub record IsRun (retry left : ℕ) (out : Outcome opts) : Type 0 where
    pub from : retry ≤ out.last
    pub upto : out.last ≤ retry + left
    pub decided : out.error ≡ report out.last
    pub failed_before : (j : ℕ) → retry ≤ j → j < out.last → should_retry (report j) ≡ true
    pub stopped : (should_retry (report out.last) ≡ false) ⊎ (out.last ≡ retry + left)
    pub sleeps : retry + length out.slept ≡ out.last

  deliver_from-IsRun : (left retry : ℕ) → IsRun retry left (deliver_from opts report left retry)
  unfolding deliver_from
  deliver_from-IsRun zero retry = record {
    from = omega arith;
    upto = omega arith;
    decided = refl;
    failed_before = λ j h k. ground (arith, h, k);
    stopped = inr (omega arith);
    sleeps = omega arith;
  }
  deliver_from-IsRun (suc left) retry = elim (Bool-cases (should_retry (report retry))) [
    | inr e ↦ rw e (record {
      from = omega arith;
      upto = omega arith;
      decided = refl;
      failed_before = λ j h k. ground (arith, h, k);
      stopped = inl e;
      sleeps = omega arith;
    })
    | inl e ↦
        let run = deliver_from-IsRun left (retry + 1) in
        rw e (record {
          from = omega (arith, run.from);
          upto = omega (arith, run.upto);
          decided = run.decided;
          failed_before = extend (λ j. should_retry (report j)) retry _ e run.failed_before;
          stopped = elim run.stopped [ inl h ↦ inl h | inr h ↦ inr (omega (arith, h)) ];
          sleeps = omega (arith, run.sleeps);
        })
  ]

  -- A delivery makes one call more than it sleeps, and at most one more than the retries allowed.
  -- Its last call decides: no error delivers the event, an error drops it. Every call before the
  -- last gave an error worth a retry, and the last gave none or was the last allowed.
  pub deliver_lem : IsRun 0 (pos_part opts.max_retries) (deliver opts report)
  unfolding deliver
  deliver_lem = deliver_from-IsRun (pos_part opts.max_retries) 0

double-pow : (d n : ℕ) → d * 2 ^ suc n ≡ 2 * d * 2 ^ n
double-pow d n =
    ap (λ k. d * k) (pow-succ' 2 n)
    ∙ (sym (mul_assoc d 2 (2 ^ n)) ∙ ap (λ k. k * 2 ^ n) (mul_comm d 2))

le_mul_pow : (a n : ℕ) → a ≤ a * 2 ^ n
le_mul_pow a zero = omega arith
le_mul_pow a (suc n) = omega (arith, le_mul_pow (2 * a) n, double-pow a n)

double_exact : (d : ℕ) → d < 4611686018427387904 → add_int64 (pos d) (pos d) ≡ pos (2 * d)
unfolding add_int64 ◌+ℤ◌
double_exact d h = ground (arith, h)

capped : (d n m : ℕ) → m ≤ 2 * d → pos m ≡ pos (min (d * 2 ^ suc n) m)
capped d n m h = ap pos (omega (arith, h, le_mul_pow (2 * d) n, double-pow d n))

moved : (d n m : ℕ) → pos (min (2 * d * 2 ^ n) m) ≡ pos (min (d * 2 ^ suc n) m)
moved d n m = ap (λ k. pos (min k m)) (sym (double-pow d n))

module _ (opts : RetryOptions) (m : ℕ) (hm : opts.max_backoff ≡ pos m)
    (bound : m < 4611686018427387904) where
  double_up_lem :
      (n d : ℕ) → d < 4611686018427387904 → double_up opts n (pos d) ≡ pos (min (d * 2 ^ n) m)
  unfolding double_up
  double_up_lem zero d h = rw hm (ground arith)
  double_up_lem (suc n) d h =
      rw (hm, double_exact d h)
        (elim (Bool-cases (leb (m + 0) (2 * d + 0))) [
          | inl e ↦ rw e (capped d n m (ground (arith, e)))
          | inr e ↦ rw e (double_up_lem n (2 * d) (ground (arith, e, bound)) ∙ moved d n m)
        ])

  -- With an initial backoff `i` and a cap `m` below 2 ^ 62 ns, the sleep before retry `n` + 1 is
  -- i * 2 ^ n or the cap, whichever is less: the loop never overflows.
  pub backoff_lem :
      (i : ℕ)
      → opts.initial_backoff ≡ pos i
      → i < 4611686018427387904
      → (n : ℕ) → backoff opts n ≡ pos (min (i * 2 ^ n) m)
  unfolding backoff
  backoff_lem i hi h n = rw hi (double_up_lem n i h)
