-- ===== src/Router/Edit/Places.antt =====
-- The places that findAllIndexes of router.go lists, and what an edit changes.
use sleigh.Prelude.{
  ℕ, zero, suc, ◌+◌, ◌-◌, ◌≤◌, ◌<◌, Text, true, false, ◌&&◌, Option, none, some, List, [], ◌∷◌, eqb,
  length, drop, has_prefix, ◌==◌, if◌then◌else◌, ◌≡◌, refl, sym, ◌∙◌, ap, arith, Bool-cases,
  Option-cases, inl, inr,
}
use sleigh.Router.Edit.{after_first, index_of, find_from, find_all_indexes, nth}

-- The places of `p` in `s`, whose first character stands at `i`.
unfoldable pub places_from : ℕ → Text → Text → List ℕ
places_from i [] p = []
places_from i (c ∷ s) p =
    let rest = places_from (suc i) s p in if has_prefix (c ∷ s) p then i ∷ rest else rest

-- Every place at which `needle` stands, overlapping ones too.
abbrev pub places : Text → Text → List ℕ
places content needle = places_from 0 content needle

drop-nil : (n : ℕ) → drop {A = ℕ} n [] ≡ []
drop-nil zero = refl
drop-nil (suc n) = refl

abbrev the : (A : Type 0) → A → A
the A a = a

drop-all : (n : ℕ) (s : Text) → length s ≤ n → drop n s ≡ []
drop-all zero [] h = refl
drop-all zero (c ∷ s) h = absurd (omega arith)
drop-all (suc n) [] h = refl
drop-all (suc n) (c ∷ s) h = drop-all n s (omega arith)

pub drop-drop : (n m : ℕ) (s : Text) → drop n (drop m s) ≡ drop (m + n) s
drop-drop n zero s = ap (λ k. drop k s) (omega arith)
drop-drop n (suc m) [] = drop-nil n ∙ sym (drop-nil (suc m + n))
drop-drop n (suc m) (c ∷ s) =
    drop-drop n m s ∙ ap (λ k. drop k (c ∷ s)) (the (suc (m + n) ≡ suc m + n) (omega arith))

module _ (d : ℕ) (q : Text) where
  -- A needle that is not empty.
  abbrev needle : Text
  needle = d ∷ q

  after_first-none : (o : Option ℕ) → after_first o ≡ none → o ≡ none
  after_first-none none h = refl
  after_first-none (some k) h = cc

  after_first-some :
      (o : Option ℕ) (k : ℕ) → after_first o ≡ some k → (j : ℕ) × (o ≡ some j) × (k ≡ suc j)
  after_first-some none k h = cc
  after_first-some (some j) k h = (j, refl, ground arith)

  index_of-none : (s : Text) (i : ℕ) → index_of s needle ≡ none → places_from i s needle ≡ []
  unfolding index_of places_from
  index_of-none [] i h = refl
  index_of-none (c ∷ s) i h = elim (Bool-cases (eqb c d && has_prefix s q)) [
    | inl e ↦ cc (rw e at h)
    | inr e ↦ rw e (index_of-none s (suc i) (after_first-none (index_of s needle) (rw e at h)))
  ]

  index_of-some :
      (s : Text) (i k : ℕ)
      → index_of s needle ≡ some k
      → (k < length s)
        × (places_from i s needle ≡ (i + k) ∷ places_from (suc (i + k)) (drop (suc k) s) needle)
  unfolding index_of places_from
  index_of-some [] i k h = cc
  index_of-some (c ∷ s) i k h = elim (Bool-cases (eqb c d && has_prefix s q)) [
    | inl e ↦
        let k0 = the (0 ≡ k) (ground (arith, rw e at h)) in
        rw (e, ← k0)
          (omega arith, ap (λ n. n ∷ places_from (suc n) s needle) (the (i ≡ i + 0) (omega arith)))
    | inr e ↦
        let (j, found, k1) = after_first-some (index_of s needle) k (rw e at h) in
        let (lt, rest) = index_of-some s (suc i) j found in
        rw (e, k1)
          (
            omega arith,
            rest
                ∙ ap (λ n. n ∷ places_from (suc n) (drop (suc j) s) needle)
                    (the (suc i + j ≡ i + suc j) (omega arith)),
          )
  ]

  find_from-places_from :
      (fuel : ℕ) (content : Text) (offset : ℕ)
      → length content < offset + fuel
      → find_from fuel content needle offset ≡ places_from offset (drop offset content) needle
  unfolding find_from
  find_from-places_from zero content offset h =
      rw (drop-all offset content (omega arith)) (unfold places_from in refl)
  find_from-places_from (suc fuel) content offset h =
      elim (Option-cases (index_of (drop offset content) needle)) [
        | inl e ↦ rw (e, find_from) (sym (index_of-none (drop offset content) offset e))
        | inr (k, e) ↦
            let (lt, here) = index_of-some (drop offset content) offset k e in
            let next = drop-drop (suc k) offset content in
            rw (e, find_from)
              (ap (λ l. (offset + k) ∷ l)
                  (find_from-places_from fuel content (offset + k + 1) (omega arith)
                    ∙ ap (λ n. places_from n (drop n content) needle)
                        (the (offset + k + 1 ≡ suc (offset + k)) (omega arith))
                    ∙ ap (λ t. places_from (suc (offset + k)) t needle)
                        (ap (λ n. drop n content)
                            (the (suc (offset + k) ≡ offset + suc k) (omega arith))
                          ∙ sym next))
                ∙ sym here)
      ]

-- One character further.
below-cons :
    (c : ℕ) (s p : Text) (i j : ℕ)
    → (suc i ≤ j) × (has_prefix (drop (j - suc i) s) p ≡ true)
    → (i ≤ j) × (has_prefix (drop (j - i) (c ∷ s)) p ≡ true)
below-cons c s p i j (le, h) = (
  omega arith,
  ap (λ n. has_prefix (drop n (c ∷ s)) p) (the (j - i ≡ suc (j - suc i)) (omega arith)) ∙ h,
)

nth-cons :
    (c : ℕ) (s p : Text) (i n j : ℕ)
    → has_prefix (c ∷ s) p ≡ true
    → nth (i ∷ places_from (suc i) s p) n ≡ some j
    → ((m : ℕ)
        → nth (places_from (suc i) s p) m ≡ some j
        → (suc i ≤ j) × (has_prefix (drop (j - suc i) s) p ≡ true))
    → (i ≤ j) × (has_prefix (drop (j - i) (c ∷ s)) p ≡ true)
nth-cons c s p i zero j e h k =
    let same = the (i ≡ j) (ground (arith, h)) in
    (omega arith, ap (λ n. has_prefix (drop n (c ∷ s)) p) (the (j - i ≡ 0) (omega arith)) ∙ e)
nth-cons c s p i (suc n) j e h k = below-cons c s p i j (k n h)

-- For a needle that is not empty, findAllIndexes lists exactly the places at which it stands in the
-- content, overlapping ones too, in order.
pub find_all_indexes-places :
    (content needle : Text)
    → (needle == []) ≡ false
    → find_all_indexes content needle ≡ places content needle
unfolding find_all_indexes ◌==◌
find_all_indexes-places content [] h = cc
find_all_indexes-places content (d ∷ q) h =
    find_from-places_from d q (length content + 1) content 0 (omega arith)

pub nth-places_from :
    (s p : Text) (i n j : ℕ)
    → nth (places_from i s p) n ≡ some j
    → (i ≤ j) × (has_prefix (drop (j - i) s) p ≡ true)
unfolding places_from
nth-places_from [] p i n j h = cc
nth-places_from (c ∷ s) p i n j h = elim (Bool-cases (has_prefix (c ∷ s) p)) [
  | inl e ↦ nth-cons c s p i n j e (rw e at h) (λ m k. nth-places_from s p (suc i) m j k)
  | inr e ↦ below-cons c s p i j (nth-places_from s p (suc i) n j (rw e at h))
]
