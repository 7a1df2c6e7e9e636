-- ===== src/Service/History/Cursor.antt =====
-- A cursor of cursor.go reads back as what it was built from.
use sleigh.Prelude.{
  ℕ, zero, suc, ◌+◌, ◌≤◌, ◌<◌, eqb, Text, Bool, true, false, not, ◌&&◌, ◌≡◌, refl, ◌∙◌, some, [],
  ◌∷◌, ◌++◌, arith, All, trim_space, is_blank, contains, ◌==◌, text_eq_refl, if◌then◌else◌,
}
use sleigh.Prelude.{is_space, trim_left, trim_right, has_prefix}
use sleigh.Prelude.Int.{ℤ, pos, ltb_ℤ, eqb_ℤ, eqb_ℤ-refl, ◌+ℤ◌}
use sleigh.Prelude.Machine.{add_int64}
use sleigh.Errors.{ok}
use sleigh.Service.History.{
  CursorPayload, Codec, dot, bar, negate, split_on, token_of, payload_at, build_cursor_token,
  parse_cursor_token, accept, parse_cursor,
}

-- A character of a token: no white space and no bar.
unfoldable pub is_plain : ℕ → Bool
is_plain c = not (is_space c) && not (eqb c bar)

-- What base64 without padding and JSON promise: decoding undoes encoding, and the alphabet has no
-- white space, no bar and no dot.
pub record IsCodec (codec : Codec) : Type 0 where
  pub json : (p : CursorPayload) → codec.of_json (codec.to_json p) ≡ some p
  pub base64 : (b : Text) → codec.decode (codec.encode b) ≡ some b
  pub plain : (b : Text) → All (λ c. is_plain c ≡ true) (codec.encode b)
  pub dotless : (b : Text) → All (λ c. eqb c dot ≡ false) (codec.encode b)

plain-append :
    (s t : Text)
    → All (λ c. is_plain c ≡ true) s
    → All (λ c. is_plain c ≡ true) t
    → All (λ c. is_plain c ≡ true) (s ++ dot ∷ t)
unfolding is_plain is_space
plain-append [] t h k = (refl, k)
plain-append (c ∷ s) t h k = (h.0, plain-append s t h.1 k)

trim_right-plain : (s : Text) → All (λ c. is_plain c ≡ true) s → trim_right s ≡ s
unfolding trim_right is_plain
trim_right-plain [] h = refl
trim_right-plain (c ∷ []) h = ground (arith, h.0)
trim_right-plain (c ∷ d ∷ s) h = rw (trim_right-plain (d ∷ s) h.1) refl

trim_left-plain : (s : Text) → All (λ c. is_plain c ≡ true) s → trim_left s ≡ s
unfolding trim_left is_plain
trim_left-plain [] h = refl
trim_left-plain (c ∷ s) h = ground (arith, h.0)

trim_space-plain : (s : Text) → All (λ c. is_plain c ≡ true) s → trim_space s ≡ s
unfolding trim_space
trim_space-plain s h = rw (trim_left-plain s h) (trim_right-plain s h)

contains-plain : (s : Text) → All (λ c. is_plain c ≡ true) s → contains s (bar ∷ []) ≡ false
unfolding contains has_prefix is_plain
contains-plain [] h = refl
contains-plain (c ∷ s) h = ground (arith, h.0, contains-plain s h.1)

split_on-dotless : (s : Text) → All (λ c. eqb c dot ≡ false) s → split_on dot s ≡ s ∷ []
unfolding split_on
split_on-dotless [] h = refl
split_on-dotless (c ∷ s) h = rw (h.0, split_on-dotless s h.1) refl

split_on-dot :
    (s t : Text)
    → All (λ c. eqb c dot ≡ false) s
    → All (λ c. eqb c dot ≡ false) t
    → split_on dot (s ++ dot ∷ t) ≡ s ∷ t ∷ []
unfolding split_on
split_on-dot [] t h k = rw (split_on-dotless t k) refl
split_on-dot (c ∷ s) t h k = rw (h.0, split_on-dot s t h.1 k) refl

append_nonempty : (s t : Text) → (s ++ dot ∷ t == []) ≡ false
unfolding ◌==◌
append_nonempty [] t = refl
append_nonempty (c ∷ s) t = refl

full : (s : Text) → is_blank s ≡ false → (s == []) ≡ false
unfolding trim_space trim_left trim_right ◌==◌
full [] h = h
full (c ∷ s) h = refl

module _ (codec : Codec) (laws : IsCodec codec) where
  parse_cursor_token-token_of :
      (secret : Text) (p : CursorPayload)
      → p.version ≡ pos 1
      → parse_cursor_token codec (token_of codec secret p) secret ≡ ok p
  unfolding parse_cursor_token token_of
  parse_cursor_token-token_of secret p v =
      let body = codec.to_json p in
      rw
        (
          split_on-dot (codec.encode body) (codec.encode (codec.mac secret body)) (laws.dotless _)
              (laws.dotless _),
          laws.base64 body,
          laws.base64 (codec.mac secret body),
          text_eq_refl (codec.mac secret body),
          laws.json p,
          v,
        )
        refl

  parse_cursor-token_of :
      (now : ℤ) (session_id : Text) (limit : ℤ) (secret : Text) (ttl : ℤ) (p : CursorPayload)
      → p.version ≡ pos 1
      → is_blank secret ≡ false
      → parse_cursor codec now session_id (token_of codec secret p) limit secret ttl
        ≡ accept codec now session_id limit ttl p
  unfolding parse_cursor
  parse_cursor-token_of now session_id limit secret ttl p v b =
      let body = codec.to_json p in
      let token = token_of codec secret p in
      let clean : All (λ c. is_plain c ≡ true) token =
        unfold token_of in
        plain-append (codec.encode body) (codec.encode (codec.mac secret body)) (laws.plain _)
          (laws.plain _) in
      let some_text : (token == []) ≡ false =
        unfold token_of in
        append_nonempty (codec.encode body) (codec.encode (codec.mac secret body)) in
      rw
        (
          trim_space-plain token clean,
          some_text,
          contains-plain token clean,
          b,
          parse_cursor_token-token_of secret p v,
        )
        refl

sum_small : (a b : ℕ) → a + b < 4611686018427387904 → add_int64 (pos a) (pos b) ≡ pos (a + b)
unfolding add_int64 ◌+ℤ◌
sum_small a b h = ground (arith, h)

not_too_old :
    (n d t : ℕ)
    → d ≤ t
    → n + t + t < 4611686018427387904
    → (ltb_ℤ (pos 0) (pos t)
        && ltb_ℤ (pos 0) (pos n)
        && ltb_ℤ (add_int64 (pos t) (pos t)) (add_int64 (pos (n + d)) (negate (pos n))))
      ≡ false
unfolding add_int64 ◌+ℤ◌
not_too_old zero d t h b = ground (arith, h, b)
not_too_old (suc n) d t h b = ground (arith, h, b)

same_limit :
    (limit : ℤ) → (ltb_ℤ (pos 0) limit && ltb_ℤ (pos 0) limit && not (eqb_ℤ limit limit)) ≡ false
same_limit limit = rw (eqb_ℤ-refl limit) (and_false (ltb_ℤ (pos 0) limit))
  where
    and_false : (b : Bool) → (b && b && false) ≡ false
    and_false true = refl
    and_false false = refl

module _ (codec : Codec) (session_id started_at exec_id : Text) (limit : ℤ) where
  accept-payload_at :
      (n d t : ℕ)
      → (started_at == []) ≡ false
      → (exec_id == []) ≡ false
      → 0 < t
      → d ≤ t
      → n + t + t < 4611686018427387904
      → accept codec
          (pos (n + d))
          session_id
          limit
          (pos t)
          (payload_at codec (pos n) session_id started_at exec_id limit (pos t))
        ≡ ok (started_at, exec_id)
  unfolding accept payload_at
  accept-payload_at n d t hs he ht hd b =
      let expires : (if ltb_ℤ (pos 0) (pos t) then add_int64 (pos n) (pos t) else pos 0)
          ≡ pos (n + t) =
        ground (arith, ht, sum_small n t (omega (arith, b))) in
      let fresh : (ltb_ℤ (pos 0) (pos (n + t)) && ltb_ℤ (pos (n + t)) (pos (n + d))) ≡ false =
        ground (arith, hd) in
      rw (text_eq_refl session_id, expires, fresh, not_too_old n d t hd b, hs, he, same_limit limit)
        refl

  -- With codecs that undo themselves and times below 2^62, a cursor that is built and read back with
  -- the same session, limit, secret and lifetime, within that lifetime, gives the start and the id
  -- that it was built from.
  pub parse_cursor-build_cursor_token :
      IsCodec codec
      → (n d t : ℕ) (secret token : Text) → is_blank started_at ≡ false
      → is_blank exec_id ≡ false
      → is_blank secret ≡ false
      → 0 < t
      → d ≤ t
      → n + t + t < 4611686018427387904
      → build_cursor_token codec (pos n) session_id started_at exec_id limit secret (pos t)
        ≡ ok token
      → parse_cursor codec (pos (n + d)) session_id token limit secret (pos t)
        ≡ ok (started_at, exec_id)
  unfolding build_cursor_token
  parse_cursor-build_cursor_token laws n d t secret token hs he hk ht hd b built =
      let p = payload_at codec (pos n) session_id started_at exec_id limit (pos t) in
      let made : ok (token_of codec secret p) ≡ ok token = rw (hs, he, hk) at built in
      let same : token_of codec secret p ≡ token = cc in
      rw (← same) (
        parse_cursor-token_of codec laws (pos (n + d)) session_id limit secret (pos t) p
          (unfold payload_at in refl) hk
        ∙ accept-payload_at n d t (full started_at hs) (full exec_id he) ht hd b)
