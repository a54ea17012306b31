-- ===== src/Sanitizer/Secrets.antt =====
-- No registered secret survives redaction.
use gitops_dashboard.Prelude.{
  ℕ, zero, suc, ◌-◌, ◌≤◌, ◌≡◌, refl, ◌≢◌, inl, inr, true, false, List, [], ◌∷◌, ◌++◌, length, take,
  arith, Bool-cases, Elem, All, All-impl, or_cases, or_false, true_or, or_true, false_of_not_true,
  sym, ◌∙◌, length-take-le,
}
use gitops_dashboard.Prelude.Rows.{Elem-order_by}
use gitops_dashboard.Prelude.Text.{
  Text, is_empty, has_prefix, contains, trim_space, Elem-insert_new, Elem-insert_new_self,
}
use gitops_dashboard.Sanitizer.{
  redacted, replace_from, replace_all, replace_tokens, redactor_redact, redact, redact_url_userinfo,
  flatten_lines, note_token, note_tokens, normalize_tokens,
}

-- A secret with no byte of the replacement text: what is replaced cannot spell it again.
abbrev pub Avoids : Text → Text → Type 0
Avoids t new = All (λ c. All (λ d. c ≢ d) new) t

-- `replaced` starts with a byte of the replacement, which a text that avoids it cannot.
no_prefix_in_new :
    (a : ℕ) (t new rest : Text)
    → Avoids (a ∷ t) new
    → is_empty new ≡ false
    → has_prefix (a ∷ t) (new ++ rest) ≡ false
unfolding has_prefix
no_prefix_in_new a t [] rest h ne = ground arith
no_prefix_in_new a t (x ∷ new) rest h ne = ground arith

-- A prefix that avoids the replacement was there before it.
prefix_before :
    (old new t s : Text)
    → is_empty new ≡ false
    → Avoids t new
    → has_prefix t (replace_from old new 0 s) ≡ true
    → has_prefix t s ≡ true
unfolding has_prefix replace_from
prefix_before old new [] s ne h p = refl
prefix_before old new (a ∷ t) [] ne h p = p
prefix_before old new (a ∷ t) (c ∷ s) ne h p = elim (Bool-cases (has_prefix old (c ∷ s))) [
  | inl hit ↦
      cc (no_prefix_in_new a t new (replace_from old new (length old - 1) s) h ne, rw hit at p)
  | inr miss ↦
      let q : has_prefix (a ∷ t) (c ∷ replace_from old new 0 s) ≡ true = rw miss at p in
      ground (arith, prefix_before old new t s ne h.1)
]

Avoids-tail : (t : Text) (x : ℕ) (new : Text) → Avoids t (x ∷ new) → Avoids t new
Avoids-tail t x new h =
    All-impl (λ c. All (λ d. c ≢ d) (x ∷ new)) (λ c. All (λ d. c ≢ d) new) (λ c k. k.1) t h

contains-append :
    (t new rest : Text)
    → Avoids t new
    → is_empty t ≡ false
    → contains t (new ++ rest) ≡ contains t rest
unfolding contains has_prefix
contains-append [] new rest h ne = ground arith
contains-append (a ∷ t) [] rest h ne = refl
contains-append (a ∷ t) (x ∷ new) rest h ne =
    let apart : a ≢ x = h.0.0 in
    let tail = contains-append (a ∷ t) new rest (Avoids-tail (a ∷ t) x new h) ne in ground arith

-- Replacement brings no text in that avoids it.
contains_before :
    (old new t : Text) (skip : ℕ) (s : Text)
    → is_empty new ≡ false
    → is_empty t ≡ false
    → Avoids t new
    → contains t (replace_from old new skip s) ≡ true
    → contains t s ≡ true
unfolding contains replace_from
contains_before old new t skip [] ne te h p = p
contains_before old new t (suc skip) (c ∷ s) ne te h p =
    ground (arith, contains_before old new t skip s ne te h p)
contains_before old new t zero (c ∷ s) ne te h p = elim (Bool-cases (has_prefix old (c ∷ s))) [
  | inl hit ↦
      let q : contains t (new ++ replace_from old new (length old - 1) s) ≡ true = rw hit at p in
      let later = contains-append t new (replace_from old new (length old - 1) s) h te in
      ground (arith, contains_before old new t (length old - 1) s ne te h (sym later ∙ q))
  | inr miss ↦
      let q : contains t (c ∷ replace_from old new 0 s) ≡ true = rw miss at p in
      elim (or_cases (has_prefix t (c ∷ replace_from old new 0 s)) _ q) [
        | inl here ↦
            true_or (has_prefix t (c ∷ s)) (contains t s)
              (prefix_before old new t (c ∷ s) ne h (rw miss here))
        | inr later ↦
            or_true (has_prefix t (c ∷ s)) (contains t s)
              (contains_before old new t 0 s ne te h later)
      ]
]

-- A replaced text does not occur in the result, if it avoids the replacement.
not_contains_replaced :
    (new t : Text) (skip : ℕ) (s : Text)
    → is_empty new ≡ false
    → is_empty t ≡ false
    → Avoids t new
    → contains t (replace_from t new skip s) ≡ false
unfolding contains replace_from
not_contains_replaced new [] skip s ne te h = ground arith
not_contains_replaced new (a ∷ t) skip [] ne te h = refl
not_contains_replaced new (a ∷ t) (suc skip) (c ∷ s) ne te h =
    not_contains_replaced new (a ∷ t) skip s ne te h
not_contains_replaced new (a ∷ t) zero (c ∷ s) ne te h =
    elim (Bool-cases (has_prefix (a ∷ t) (c ∷ s))) [
      | inl hit ↦ rw hit (
          contains-append (a ∷ t) new (replace_from (a ∷ t) new (length (a ∷ t) - 1) s) h te
          ∙ not_contains_replaced new (a ∷ t) (length (a ∷ t) - 1) s ne te h)
      | inr miss ↦ rw miss (
          or_false (has_prefix (a ∷ t) (c ∷ replace_from (a ∷ t) new 0 s)) _
            (false_of_not_true _
              (λ here. cc (miss, prefix_before (a ∷ t) new (a ∷ t) (c ∷ s) ne h (rw miss here))))
            (not_contains_replaced new (a ∷ t) 0 s ne te h))
    ]

has_prefix-take : (n : ℕ) (t s : Text) → has_prefix t (take n s) ≡ true → has_prefix t s ≡ true
unfolding has_prefix
has_prefix-take n [] s h = refl
has_prefix-take zero (a ∷ t) s h = ground arith
has_prefix-take (suc n) (a ∷ t) [] h = h
has_prefix-take (suc n) (a ∷ t) (c ∷ s) h = ground (arith, has_prefix-take n t s)

contains-take :
    (n : ℕ) (t s : Text) → is_empty t ≡ false → contains t (take n s) ≡ true → contains t s ≡ true
unfolding contains
contains-take zero t s ne h = cc
contains-take (suc n) t [] ne h = h
contains-take (suc n) t (c ∷ s) ne h = elim (or_cases (has_prefix t (c ∷ take n s)) _ h) [
  | inl here ↦
      true_or (has_prefix t (c ∷ s)) (contains t s) (has_prefix-take (suc n) t (c ∷ s) here)
  | inr later ↦ or_true (has_prefix t (c ∷ s)) (contains t s) (contains-take n t s ne later)
]

-- What does not occur is not brought in by the tokens that follow.
absent_stays :
    (t : Text) (tokens : List Text) (value : Text)
    → is_empty t ≡ false
    → Avoids t redacted
    → contains t value ≡ false
    → contains t (replace_tokens tokens value) ≡ false
unfolding replace_tokens
absent_stays t [] value ne h gone = gone
absent_stays t (token ∷ tokens) value ne h gone =
    absent_stays t tokens (replace_all token redacted value) ne h (
      false_of_not_true _ (λ back.
        cc (gone, contains_before token redacted t 0 value refl ne h (unfold replace_all in back))))

replace_tokens-hides :
    (t : Text) (tokens : List Text) (value : Text)
    → is_empty t ≡ false
    → Avoids t redacted
    → Elem t tokens
    → contains t (replace_tokens tokens value) ≡ false
unfolding replace_tokens
replace_tokens-hides t [] value ne h m = elim m [ ]
replace_tokens-hides t (token ∷ tokens) value ne h (inl here) = rw (← here) (
    absent_stays t tokens (replace_all t redacted value) ne h
      (unfold replace_all in not_contains_replaced redacted t 0 value refl ne h))
replace_tokens-hides t (token ∷ tokens) value ne h (inr later) =
    replace_tokens-hides t tokens (replace_all token redacted value) ne h later

Elem-note_token : (t raw : Text) (seen : List Text) → Elem t seen → Elem t (note_token raw seen)
unfolding note_token
Elem-note_token t raw seen m = elim (Bool-cases (is_empty (trim_space raw))) [
  | inl blank ↦ rw blank m
  | inr some_text ↦
      rw some_text
        (Elem-insert_new t _ _ (Elem-insert_new t _ _ (Elem-insert_new t (trim_space raw) seen m)))
]

Elem-note_token_self :
    (raw : Text) (seen : List Text)
    → is_empty (trim_space raw) ≡ false
    → Elem (trim_space raw) (note_token raw seen)
unfolding note_token
Elem-note_token_self raw seen ne =
    let t = trim_space raw in
    rw ne (Elem-insert_new t _ _ (Elem-insert_new t _ _ (Elem-insert_new_self t seen)))

Elem-note_tokens_seen :
    (t : Text) (tokens seen : List Text) → Elem t seen → Elem t (note_tokens tokens seen)
unfolding note_tokens
Elem-note_tokens_seen t [] seen m = m
Elem-note_tokens_seen t (raw ∷ tokens) seen m =
    Elem-note_tokens_seen t tokens (note_token raw seen) (Elem-note_token t raw seen m)

Elem-note_tokens :
    (raw : Text) (tokens seen : List Text)
    → is_empty (trim_space raw) ≡ false
    → Elem raw tokens
    → Elem (trim_space raw) (note_tokens tokens seen)
unfolding note_tokens
Elem-note_tokens raw [] seen ne m = elim m [ ]
Elem-note_tokens raw (token ∷ tokens) seen ne (inl here) =
    Elem-note_tokens_seen (trim_space raw) tokens (note_token token seen)
      (rw (← here) (Elem-note_token_self raw seen ne))
Elem-note_tokens raw (token ∷ tokens) seen ne (inr later) =
    Elem-note_tokens raw tokens (note_token token seen) ne later

-- Redaction leaves no occurrence of a registered secret, whatever the text and the other secrets
-- are, if the trimmed secret is not empty and shares no byte with the replacement text.
pub redact-hides :
    (tokens : List Text) (secret value : Text)
    → Elem secret tokens
    → is_empty (trim_space secret) ≡ false
    → Avoids (trim_space secret) redacted
    → contains (trim_space secret) (redact tokens value) ≡ false
unfolding redact redactor_redact normalize_tokens
redact-hides tokens secret value m ne h = false_of_not_true _ (λ back. cc (
  contains-take 1000 (trim_space secret) _ ne back,
  replace_tokens-hides (trim_space secret) (normalize_tokens tokens)
      (redact_url_userinfo (flatten_lines value)) ne h
      (Elem-order_by _ (trim_space secret) (note_tokens tokens [])
        (Elem-note_tokens secret tokens [] ne m)),
))

-- Redacted text has a thousand bytes at most.
pub length-redact-le : (tokens : List Text) (value : Text) → length (redact tokens value) ≤ 1000
unfolding redact redactor_redact
length-redact-le tokens value = length-take-le 1000 _
