-- ===== src/Address/Syntax/Quoting.antt =====
-- `QuoteMbox` and `UnquoteMbox` are inverse, and a quoted local part is valid.
use mathlib.Core.Bool.{or-true, or-false, xor}
use native.Mathlib.Decide.{dec_lt}
use sirr_mesh.Base.{
  ℕ, ◌≤◌, ◌≡◌, refl, ◌∙◌, ◌≢◌, inl, inr, Bool, true, false, not, ◌||◌, [], ◌∷◌, ◌++◌, append-nil,
  append_assoc, arith, ltb, if◌then◌else◌, Bool-cases, Text, passes_below, passes_below_lem,
  has_prefix, ok, all,
}
use sirr_mesh.Address.Syntax.{
  Unquote, unquote_runes, unquote_start, unquote_mbox, nonempty, mbox_special, quote_rune,
  quote_runes, quote_mbox, valid_quoted_rune, valid_atom_rune, valid_unquoted, valid_mailbox_name,
}

-- What `QuoteMbox` writes between the quotes.
abbrev inside : Text → Text
inside [] = []
inside (c ∷ cs) = quote_rune c ++ inside cs

abbrev any_special : Text → Bool
any_special [] = false
any_special (c ∷ cs) = mbox_special c || any_special cs

quote_piece :
    (c : ℕ) (esc : Text)
    → (if mbox_special c then esc ++ quote_rune c else esc ++ (c ∷ [])) ≡ esc ++ quote_rune c
unfolding quote_rune
quote_piece c esc = ground arith

or_assoc : (a b c : Bool) → (a || b || c) ≡ (a || (b || c))
or_assoc a b c = ground arith

quote_runes_lem :
    (cs esc : Text) (q : Bool) → quote_runes esc q cs ≡ (esc ++ inside cs, q || any_special cs)
unfolding quote_runes
quote_runes_lem [] esc q = simp (append-nil, or-false)
quote_runes_lem (c ∷ cs) esc q =
    rw (quote_piece c esc)
      (quote_runes_lem cs (esc ++ quote_rune c) (q || mbox_special c) ∙ rw (append_assoc, or_assoc))

abbrev within : Text → Unquote
within out = record { quoted = true; escaped = false; terminated = false; out = out }

unquote_runes-quote_rune :
    (c : ℕ) (out rest : Text)
    → unquote_runes (within out) (quote_rune c ++ rest)
      ≡ unquote_runes (within (out ++ (c ∷ []))) rest
unfolding unquote_runes quote_rune
unquote_runes-quote_rune c out rest = ground arith

unquote_runes-inside :
    (cs out : Text)
    → unquote_runes (within out) (inside cs ++ (b'"' ∷ []))
      ≡ ok (record { quoted = false; escaped = false; terminated = true; out = out ++ cs })
unquote_runes-inside [] out = unfold unquote_runes in rw append-nil
unquote_runes-inside (c ∷ cs) out =
    rw append_assoc (
      unquote_runes-quote_rune c out _
      ∙ unquote_runes-inside cs (out ++ (c ∷ []))
      ∙ rw append_assoc)

unquote_runes_plain :
    (cs out : Text)
    → any_special cs ≡ false
    → unquote_runes (record unquote_start { out = out }) cs
      ≡ ok (record unquote_start { out = out ++ cs })
unfolding unquote_runes mbox_special
unquote_runes_plain [] out h = rw append-nil
unquote_runes_plain (c ∷ cs) out h =
    ground (arith, unquote_runes_plain cs (out ++ (c ∷ [])), append_assoc out (c ∷ []) cs)

nonempty_lem : (s : Text) → s ≢ [] → nonempty s ≡ ok s
unfolding nonempty
nonempty_lem [] h = absurd (h refl)
nonempty_lem (c ∷ cs) h = refl

unquote_open :
    (rest : Text) → unquote_runes unquote_start (b'"' ∷ rest) ≡ unquote_runes (within []) rest
unfolding unquote_runes
unquote_open rest = refl

-- Quoting a local part that is not empty and unquoting it gives it back.
pub unquote_mbox-quote_mbox : (m : Text) → m ≢ [] → unquote_mbox (quote_mbox m) ≡ ok m
unfolding quote_mbox unquote_mbox
unquote_mbox-quote_mbox m h = rw (quote_runes_lem m [] false) (elim (Bool-cases (any_special m)) [
  | inl e ↦ rw e (rw (unquote_open, unquote_runes-inside m []) (nonempty_lem m h))
  | inr e ↦ rw e (rw (unquote_runes_plain m [] e) (nonempty_lem m h))
])

abbrev agrees : ℕ → Bool
agrees c = mbox_special c || not (xor (valid_atom_rune c) (valid_quoted_rune c))

agrees_table : passes_below agrees 128 ≡ true
unfolding passes_below mbox_special valid_atom_rune valid_quoted_rune xor
agrees_table = refl

valid_above : (c : ℕ) → 128 ≤ c → valid_atom_rune c ≡ valid_quoted_rune c
unfolding valid_atom_rune valid_quoted_rune
valid_above c h = let above : ltb 0x7f c ≡ true = ground arith in rw (above, or-true) (ground arith)

-- A rune that needs no quotes is allowed outside them just if it is allowed inside.
valid_atom_rune-valid_quoted_rune :
    (c : ℕ) → mbox_special c ≡ false → valid_atom_rune c ≡ valid_quoted_rune c
valid_atom_rune-valid_quoted_rune c h = elim (dec_lt c 128) [
  | yes lt ↦ unfold xor in ground (arith, passes_below_lem agrees 128 c agrees_table lt)
  | no ge ↦ valid_above c (omega arith)
]

all-valid_atom_rune :
    (m : Text) → any_special m ≡ false → all valid_atom_rune m ≡ all valid_quoted_rune m
all-valid_atom_rune [] h = refl
all-valid_atom_rune (c ∷ cs) h =
    ground (arith, valid_atom_rune-valid_quoted_rune c, all-valid_atom_rune cs)

-- A plain local part does not begin with a quote.
plain_start : (m : Text) → any_special m ≡ false → has_prefix (b'"' ∷ []) m ≡ false
unfolding has_prefix mbox_special
plain_start [] h = refl
plain_start (c ∷ cs) h = ground arith

quote_mbox_special :
    (m : Text) → any_special m ≡ true → quote_mbox m ≡ b'"' ∷ (inside m ++ (b'"' ∷ []))
unfolding quote_mbox
quote_mbox_special m e = rw (quote_runes_lem m [] false, e)

quote_mbox_plain : (m : Text) → any_special m ≡ false → quote_mbox m ≡ m
unfolding quote_mbox
quote_mbox_plain m e = rw (quote_runes_lem m [] false, e)

any_special-ne-nil : (m : Text) → any_special m ≡ true → m ≢ []
any_special-ne-nil [] e = cc
any_special-ne-nil (c ∷ cs) e = λ z. cc

valid_mailbox_name_quoted :
    (s : Text)
    → has_prefix (b'"' ∷ []) s ≡ true
    → valid_mailbox_name s ≡ valid_unquoted (unquote_mbox s)
unfolding valid_mailbox_name
valid_mailbox_name_quoted s h = rw h

valid_mailbox_name_plain :
    (s : Text) → has_prefix (b'"' ∷ []) s ≡ false → valid_mailbox_name s ≡ all valid_atom_rune s
unfolding valid_mailbox_name
valid_mailbox_name_plain s h = rw h

opens_quote : (s : Text) → has_prefix (b'"' ∷ []) (b'"' ∷ s) ≡ true
unfolding has_prefix
opens_quote s = refl

valid_quoted_form :
    (m : Text) → any_special m ≡ true → valid_mailbox_name (quote_mbox m) ≡ all valid_quoted_rune m
unfolding valid_unquoted
valid_quoted_form m e =
    valid_mailbox_name_quoted (quote_mbox m)
      (rw (quote_mbox_special m e) (opens_quote (inside m ++ (b'"' ∷ []))))
    ∙ rw (unquote_mbox-quote_mbox m (any_special-ne-nil m e))

valid_plain_form :
    (m : Text) → any_special m ≡ false → valid_mailbox_name (quote_mbox m) ≡ all valid_quoted_rune m
valid_plain_form m e =
    rw (quote_mbox_plain m e)
      (valid_mailbox_name_plain m (plain_start m e) ∙ all-valid_atom_rune m e)

-- Quoting a local part gives a valid mailbox name exactly if no rune of it is a control character.
valid_mailbox_name-quote_mbox :
    (m : Text) → valid_mailbox_name (quote_mbox m) ≡ all valid_quoted_rune m
valid_mailbox_name-quote_mbox m = elim (Bool-cases (any_special m)) [
  | inl e ↦ valid_quoted_form m e
  | inr e ↦ valid_plain_form m e
]
