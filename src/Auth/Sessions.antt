-- ===== src/Auth/Sessions.antt =====
-- A session token is valid for its life, and only with the secret it was made with.
use mathlib.Core.Path.{subst}
use autodeploy_web.Base.{
  ==_iff, is_empty_iff, ℕ, ◌+◌, ◌*◌, ◌/◌, ◌^◌, ◌≤◌, ◌<◌, ◌≡◌, ◌≢◌, ◌↔◌, refl, sym, ap, ◌∙◌, Bool,
  true, false, [], ◌∷◌, ◌++◌, Option, none, some, Text, text, text_eq_iff, is_empty, ◌==◌, ℤ, pos,
  All, arith, Bool-cases, Option-cases, inl, inr,
}
use autodeploy_web.Base.Decimal.{format_nat, parse_int, format_nat-digits, parse_int-format_nat}
use autodeploy_web.Auth.{
  second, session_max_age, skew, cut_dot, in_window, new_session, valid_parts, valid_session,
}

cut_dot-digits :
    (s rest : Text)
    → All (λ c. (b'0' ≤ c) × (c ≤ b'9')) s
    → cut_dot (s ++ 46 ∷ rest) ≡ some (s, rest)
unfolding cut_dot
cut_dot-digits [] rest h = refl
cut_dot-digits (c ∷ s) rest h = ground (arith, cut_dot-digits s rest h.1)

abbrev joined : Option (Text × Text) → Text
joined none = []
joined (some (a, b)) = a ++ 46 ∷ b

abbrev named : Option (Text × Text) → Bool
named none = false
named (some _) = true

cut_dot-parts : (s a b : Text) → cut_dot s ≡ some (a, b) → s ≡ a ++ 46 ∷ b
unfolding cut_dot
cut_dot-parts [] a b h = cc
cut_dot-parts (c ∷ s) a b h = elim (Bool-cases (c == 46)) [
  | inl e ↦ ap (λ d. d ∷ s) ((==_iff c 46).0 e) ∙ ap joined (sym (at_dot e) ∙ h)
  | inr e ↦ elim (Option-cases (cut_dot s)) [
    | inl f ↦ absurd (ground arith)
    | inr ((x, y), f) ↦ ap (◌∷◌ c) (cut_dot-parts s x y f) ∙ ap joined (sym (later x y e f) ∙ h)
  ]
]
  where
    at_dot : (c == 46) ≡ true → cut_dot (c ∷ s) ≡ some ([], s)
    at_dot e = ground arith

    later :
        (x y : Text)
        → (c == 46) ≡ false
        → cut_dot s ≡ some (x, y)
        → cut_dot (c ∷ s) ≡ some (c ∷ x, y)
    later x y e f = rw (e, f) refl

abbrev number : Option ℤ → ℤ
number none = pos 0
number (some n) = n

not_empty : (s : Text) → is_empty s ≡ false → s ≢ []
not_empty [] h e = cc
not_empty (c ∷ s) h e = cc

module _ (mac : Text → Text → Text) where
  -- What a token with its two parts has when it is accepted.
  pub record Accepted (secret payload sig : Text) (now : ℕ) : Type 0 where
    pub written : payload ≢ []
    pub signed : sig ≡ mac secret payload
    pub signature : sig ≢ []
    pub issued : ℤ
    pub parsed : parse_int payload ≡ some issued
    pub current : in_window now issued ≡ true

  valid_parts-Accepted :
      (secret payload sig : Text) (now : ℕ)
      → valid_parts mac secret payload sig now ≡ true
      → Accepted secret payload sig now
  unfolding valid_parts
  valid_parts-Accepted secret payload sig now h = elim (Option-cases (parse_int payload)) [
    | inl e ↦ absurd (ground arith)
    | inr (n, e) ↦ record {
      written = λ z. ground (arith, is_empty_iff payload);
      signed = ground (arith, text_eq_iff sig (mac secret payload));
      signature = λ z. ground (arith, is_empty_iff sig);
      issued = n;
      parsed = e;
      current = ground arith;
    }
  ]

  Accepted-valid_parts :
      (secret payload sig : Text) (now : ℕ)
      → Accepted secret payload sig now
      → valid_parts mac secret payload sig now ≡ true
  unfolding valid_parts
  Accepted-valid_parts secret payload sig now a = rw (a.parsed) (
      ground (
        arith,
        a.current,
        is_empty_iff payload,
        is_empty_iff sig,
        text_eq_iff sig (mac secret payload),
      ))

  valid_session-cut :
      (secret token p s : Text) (now : ℕ)
      → cut_dot token ≡ some (p, s)
      → valid_session mac secret token now ≡ valid_parts mac secret p s now
  unfolding valid_session
  valid_session-cut secret token p s now e = rw (valid_session, e) refl

  -- A session token made at a time is accepted exactly from five minutes before the second of its
  -- issue to 30 days after it, when the keyed hash is never empty and the time in seconds fits an
  -- int64.
  pub new_session-valid :
      (secret : Text) (issued now : ℕ)
      → ((msg : Text) → mac secret msg ≢ [])
      → issued / second < 2 ^ 63
      → (valid_session mac secret (new_session mac secret issued) now ≡ true) ↔ (
          (issued / second * second ≤ now + skew)
          × (now ≤ issued / second * second + session_max_age))
  unfolding new_session in_window text
  new_session-valid secret issued now keyed small =
      let p = format_nat (issued / second) in
      let (nonempty, digits) = format_nat-digits (issued / second) in
      let read = parse_int-format_nat (issued / second) small in
      let cut =
        valid_session-cut secret (p ++ 46 ∷ mac secret p) p (mac secret p) now
          (cut_dot-digits p (mac secret p) digits) in
      (
        λ h. windowed (valid_parts-Accepted secret p (mac secret p) now (sym cut ∙ h)) read,
        λ (b, c).
            cut
            ∙ Accepted-valid_parts secret p (mac secret p) now (record {
              written = not_empty p nonempty;
              signed = refl;
              signature = keyed p;
              issued = pos (issued / second);
              parsed = read;
              current = ground arith;
            }),
      )
    where
      windowed :
          Accepted secret
            (format_nat (issued / second))
            (mac secret (format_nat (issued / second)))
            now
          → parse_int (format_nat (issued / second)) ≡ some (pos (issued / second))
          → ((issued / second * second ≤ now + skew)
              × (now ≤ issued / second * second + session_max_age))
      windowed a read =
          let same : a.issued ≡ pos (issued / second) = ap number (sym a.parsed ∙ read) in
          let c = subst (λ i. in_window now i ≡ true) same a.current in (ground arith, ground arith)

  -- An accepted session token ends in the keyed hash of what stands before its first dot, and that
  -- is a number of seconds in the window.
  pub valid_session-Accepted :
      (secret token : Text) (now : ℕ)
      → valid_session mac secret token now ≡ true
      → (payload : Text) × ((token ≡ payload ++ 46 ∷ mac secret payload)
          × Accepted secret payload (mac secret payload) now)
  unfolding valid_session
  valid_session-Accepted secret token now h = elim (Option-cases (cut_dot token)) [
    | inl e ↦ absurd (ground arith)
    | inr ((p, s), e) ↦
        let a =
          valid_parts-Accepted secret p s now
            (sym (valid_session-cut secret token p s now e) ∙ h) in
        (
          p,
          (
            cut_dot-parts token p s e ∙ ap (λ t. p ++ 46 ∷ t) a.signed,
            subst (λ t. Accepted secret p t now) a.signed a,
          ),
        )
  ]

  -- A token that is accepted under two secrets has a part with one keyed hash under both.
  pub rotation-ends_sessions :
      (secret secret2 token : Text) (now now2 : ℕ)
      → valid_session mac secret token now ≡ true
      → valid_session mac secret2 token now2 ≡ true
      → (payload : Text) × (mac secret payload ≡ mac secret2 payload)
  unfolding valid_session
  rotation-ends_sessions secret secret2 token now now2 h k = elim (Option-cases (cut_dot token)) [
    | inl e ↦ absurd (ground arith)
    | inr ((p, s), e) ↦
        let a =
          valid_parts-Accepted secret p s now
            (sym (valid_session-cut secret token p s now e) ∙ h) in
        let b =
          valid_parts-Accepted secret2 p s now2
            (sym (valid_session-cut secret2 token p s now2 e) ∙ k) in
        (p, sym a.signed ∙ b.signed)
  ]
