-- ===== src/Config/Size/Sum.antt =====
-- A size is the sum of its parts.
use sirr_mesh.Base.{
  ℕ, ◌+◌, ◌*◌, ◌^◌, ◌<◌, ◌≡◌, ◌⊎◌, inl, inr, refl, sym, ap, ◌∙◌, Bool, true, false, not, ◌&&◌, ◌==◌,
  some, List, [], ◌∷◌, ◌++◌, append-nil, append_assoc, All, all, arith, Text, text, text_eq, Result,
  ok, err, ◌>>=◌,
}
use sirr_mesh.Config.Node.{Reason}
use sirr_mesh.Config.Number.{pos, atoi}
use sirr_mesh.Config.Size.{
  Sizing, wrap_64, unit_of, scaled, add_size, digit_after, size_rune, size_runes, total_of,
  parse_data_size,
}

-- Digits, of which there is one at least, and a suffix.
pub record Part : Type 0 where
  pub first_digit : ℕ
  pub more_digits : Text
  pub part_suffix : Text
  pub number : ℕ
  pub part_unit : ℕ

abbrev pub digits_of : Part → Text
digits_of p = p.first_digit ∷ p.more_digits

abbrev pub part_size : Part → ℕ
part_size p = p.number * p.part_unit

abbrev pub sum_of : List Part → ℕ
sum_of [] = 0
sum_of (p ∷ ps) = part_size p + sum_of ps

-- The parts, with a space behind each of them but the last.
abbrev pub parts_text : Part → List Part → Text
parts_text p [] = digits_of p ++ p.part_suffix
parts_text p (q ∷ ps) = digits_of p ++ (p.part_suffix ++ (b' ' ∷ parts_text q ps))

bind_cong :
    (r : Result Reason Sizing) (f g h : Sizing → Result Reason Sizing)
    → ((z : Sizing) → f z ≡ (g z >>= h))
    → (r >>= f) ≡ ((r >>= g) >>= h)
bind_cong (err e) f g h k = refl
bind_cong (ok z) f g h k = k z

-- The units of sizes: 1024 ^ 3, 1024 ^ 2, 1024 and 1 bytes.
abbrev pub IsUnit : Text → ℕ → Type 0
IsUnit s unit =
    ((s ≡ text "G") × (unit ≡ 1073741824))
    ⊎ ((s ≡ text "M") × (unit ≡ 1048576))
    ⊎ ((s ≡ text "K") × (unit ≡ 1024))
    ⊎ ((s ≡ text "B") × (unit ≡ 1))
    ⊎ ((s ≡ text "b") × (unit ≡ 1))

unit_of-IsUnit : (s : Text) (unit : ℕ) → IsUnit s unit → unit_of s ≡ some unit
unfolding unit_of text_eq
unit_of-IsUnit s unit (inl (e, f)) = rw (e, f) refl
unit_of-IsUnit s unit (inr (inl (e, f))) = rw (e, f) refl
unit_of-IsUnit s unit (inr (inr (inl (e, f)))) = rw (e, f) refl
unit_of-IsUnit s unit (inr (inr (inr (inl (e, f))))) = rw (e, f) refl
unit_of-IsUnit s unit (inr (inr (inr (inr (e, f))))) = rw (e, f) refl

module _ (is_digit : ℕ → Bool) where
  abbrev pub IsPart : Part → Type 0
  IsPart p =
      (all is_digit (digits_of p) ≡ true)
      × (all (λ c. not (is_digit c) && not (c == b' ')) p.part_suffix ≡ true)
      × (atoi (digits_of p) ≡ some (pos p.number))
      × IsUnit p.part_suffix p.part_unit

  abbrev cleared : ℕ → Sizing
  cleared n = record { total = n; current_digit = []; suffix = [] }

  size_runes-append :
      (z : Sizing) (s t : Text)
      → size_runes is_digit z (s ++ t)
        ≡ (size_runes is_digit z s >>= λ z'. size_runes is_digit z' t)
  unfolding size_runes
  size_runes-append z [] t = refl
  size_runes-append z (c ∷ s) t =
      bind_cong (size_rune is_digit z c) (λ z'. size_runes is_digit z' (s ++ t))
        (λ z'. size_runes is_digit z' s) (λ z'. size_runes is_digit z' t)
        (λ z'. size_runes-append z' s t)

  size_runes-digits :
      (n : ℕ) (done s : Text)
      → all is_digit s ≡ true
      → size_runes is_digit (record (cleared n) { current_digit = done }) s
        ≡ ok (record (cleared n) { current_digit = done ++ s })
  unfolding size_runes size_rune digit_after
  size_runes-digits n done [] h =
      ap (λ d. ok (record (cleared n) { current_digit = d })) (sym (append-nil done))
  size_runes-digits n done (c ∷ s) h =
      let digit : is_digit c ≡ true = ground (arith, h) in
      rw digit (
        size_runes-digits n (done ++ (c ∷ [])) s (ground (arith, h))
        ∙ ap (λ d. ok (record (cleared n) { current_digit = d })) (append_assoc done (c ∷ []) s))

  size_runes-suffix :
      (n : ℕ) (ds done s : Text)
      → all (λ c. not (is_digit c) && not (c == b' ')) s ≡ true
      → size_runes is_digit (record { total = n; current_digit = ds; suffix = done }) s
        ≡ ok (record { total = n; current_digit = ds; suffix = done ++ s })
  unfolding size_runes size_rune
  size_runes-suffix n ds done [] h =
      ap (λ d. ok (record { total = n; current_digit = ds; suffix = d })) (sym (append-nil done))
  size_runes-suffix n ds done (c ∷ s) h =
      let no_digit : is_digit c ≡ false = ground (arith, h) in
      let no_space : (c == b' ') ≡ false = ground (arith, h) in
      rw (no_digit, no_space)
        (size_runes-suffix n ds (done ++ (c ∷ [])) s (ground (arith, h))
          ∙ ap (λ d. ok (record { total = n; current_digit = ds; suffix = d }))
              (append_assoc done (c ∷ []) s))

  module _ (space : is_digit b' ' ≡ false) where
    size_runes-space :
        (n : ℕ) (p : Part) (s : Text)
        → IsPart p
        → size_runes is_digit
            (record { total = n; current_digit = digits_of p; suffix = p.part_suffix })
            (b' ' ∷ s)
          ≡ size_runes is_digit (cleared (wrap_64 (n + part_size p))) s
    unfolding size_runes size_rune add_size scaled
    size_runes-space n p s (d, f, a, u) =
        rw (space, a, unit_of-IsUnit p.part_suffix p.part_unit u) refl

    size_runes-part :
        (n : ℕ) (p : Part) (s : Text)
        → IsPart p
        → size_runes is_digit (cleared n) (digits_of p ++ (p.part_suffix ++ (b' ' ∷ s)))
          ≡ size_runes is_digit (cleared (wrap_64 (n + part_size p))) s
    size_runes-part n p s h =
        size_runes-append (cleared n) (digits_of p) (p.part_suffix ++ (b' ' ∷ s))
        ∙ ap (λ r. r >>= λ z. size_runes is_digit z (p.part_suffix ++ (b' ' ∷ s)))
            (size_runes-digits n [] (digits_of p) h.0)
        ∙ size_runes-append (record { total = n; current_digit = digits_of p; suffix = [] })
            p.part_suffix (b' ' ∷ s)
        ∙ ap (λ r. r >>= λ z. size_runes is_digit z (b' ' ∷ s))
            (size_runes-suffix n (digits_of p) [] p.part_suffix h.1)
        ∙ size_runes-space n p s h

    small :
        (n : ℕ) (p : Part) (rest : ℕ)
        → n + (part_size p + rest) < 2 ^ 64
        → wrap_64 (n + part_size p) ≡ n + part_size p
    small n p rest lt = omega (arith, lt)

    fits :
        (n : ℕ) (p : Part) (rest : ℕ)
        → n + (part_size p + rest) < 2 ^ 64
        → wrap_64 (n + part_size p) ≡ n + (part_size p + 0)
    fits n p rest lt = omega (arith, lt)

    size_runes-parts :
        (n : ℕ) (p : Part) (ps : List Part)
        → All IsPart (p ∷ ps)
        → n + sum_of (p ∷ ps) < 2 ^ 64
        → size_runes is_digit (cleared n) (parts_text p ps ++ text " ")
          ≡ ok (cleared (n + sum_of (p ∷ ps)))
    unfolding size_runes
    size_runes-parts n p [] h lt =
        ap (size_runes is_digit (cleared n)) (append_assoc (digits_of p) p.part_suffix (text " "))
        ∙ size_runes-part n p [] h.0
        ∙ ap (λ t. ok (cleared t)) (fits n p 0 lt)
    size_runes-parts n p (q ∷ ps) h lt =
        ap (size_runes is_digit (cleared n)) (
          append_assoc (digits_of p) (p.part_suffix ++ (b' ' ∷ parts_text q ps)) (text " ")
          ∙ ap (λ t. digits_of p ++ t)
              (append_assoc p.part_suffix (b' ' ∷ parts_text q ps) (text " ")))
        ∙ size_runes-part n p (parts_text q ps ++ text " ") h.0
        ∙ ap (λ t. size_runes is_digit (cleared t) (parts_text q ps ++ text " "))
            (small n p (sum_of (q ∷ ps)) lt)
        ∙ size_runes-parts (n + part_size p) q ps h.1 (omega (arith, lt))
        ∙ ap (λ t. ok (cleared t)) (omega arith)

    -- Parts with a space between them, each of them digits that are an `int` and a suffix that is a unit
    -- (G, M, K, B or b: 1024 ^ 3, 1024 ^ 2, 1024, 1 and 1 bytes), whose sum is below 2 ^ 63:
    -- `ParseDataSize` reads the sum. No digit is in a suffix, and no space is
    -- a digit or in a suffix.
    pub parse_data_size-sum_of :
        (p : Part) (ps : List Part)
        → All IsPart (p ∷ ps)
        → sum_of (p ∷ ps) < 2 ^ 63
        → parse_data_size is_digit (parts_text p ps) ≡ ok (sum_of (p ∷ ps))
    unfolding parse_data_size total_of
    parse_data_size-sum_of p [] h lt =
        ap (total_of is_digit)
          (size_runes-parts 0 p [] h (omega (arith, lt)) ∙ ap (λ t. ok (cleared t)) (omega arith))
    parse_data_size-sum_of p (q ∷ ps) h lt = ap (total_of is_digit) (
        size_runes-parts 0 p (q ∷ ps) h (omega (arith, lt))
        ∙ ap (λ t. ok (cleared t)) (omega arith))
