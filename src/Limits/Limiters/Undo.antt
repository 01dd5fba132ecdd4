-- ===== src/Limits/Limiters/Undo.antt =====
-- A take that fails half-way, or that is released later, leaves no semaphore taken.
use sirr_mesh.Base.{
  ℕ, zero, suc, ◌≤◌, ◌≡◌, refl, subst, ◌⊎◌, inl, inr, Bool, true, false, some, List, [], ◌∷◌, ◌++◌,
  append-nil, append_assoc, arith, leb, Result, ok, err,
}
use sirr_mesh.Limits.Limiters.{
  Leaf, semaphore, rate, Denied, take_leaf, send, receive, release_leaf, Taken, took, refused,
  panicked, and_then, release_all, undone, on_take, take_from, take_all,
}

-- The second limiter has as much room as the first, but for tokens that are gone.
abbrev pub Spent : Leaf → Leaf → Type 0
Spent (semaphore c u) (semaphore d v) = (c ≡ d) × (u ≡ v)
Spent (rate b t c) (rate d u e) = (b ≡ d) × (u ≤ t) × (c ≡ e)
Spent _ _ = ⊥

abbrev pub SpentAll : List Leaf → List Leaf → Type 0
SpentAll [] [] = Unit
SpentAll (l ∷ ls) (m ∷ ms) = Spent l m × SpentAll ls ms
SpentAll _ _ = ⊥

pub Spent-refl : (l : Leaf) → Spent l l
Spent-refl (semaphore c u) = (refl, refl)
Spent-refl (rate b t c) = (refl, omega arith, refl)

pub SpentAll-refl : (ls : List Leaf) → SpentAll ls ls
SpentAll-refl [] = tt
SpentAll-refl (l ∷ ls) = (Spent-refl l, SpentAll-refl ls)

pub SpentAll-append :
    (ks ls ms ns : List Leaf) → SpentAll ks ls → SpentAll ms ns → SpentAll (ks ++ ms) (ls ++ ns)
SpentAll-append [] [] ms ns h k = k
SpentAll-append (a ∷ ks) (b ∷ ls) ms ns h k = (h.0, SpentAll-append ks ls ms ns h.1 k)
SpentAll-append [] (b ∷ ls) ms ns h k = absurd h
SpentAll-append (a ∷ ks) [] ms ns h k = absurd h

-- Release works, and leads back.
abbrev pub Back : Leaf → Leaf → Type 0
Back l l' = (m : Leaf) × (release_leaf l' ≡ some m) × Spent l m

abbrev pub BackAll : List Leaf → List Leaf → Type 0
BackAll ls ls' = (ms : List Leaf) × (release_all ls' ≡ some ms) × SpentAll ls ms

Back-eq : (l : Leaf) {x y : Leaf} → ◌≡◌ {A = Result Denied Leaf} (ok x) (ok y) → Back l x → Back l y
Back-eq l {x} {y} h b = let e : x ≡ y = ground (arith, h) in subst (λ z. Back l z) e b

send-Back :
    (c u : ℕ) (full : Bool) {l : Leaf} → send (suc c) u full ≡ ok l → Back (semaphore (suc c) u) l
unfolding send release_leaf
send-Back c u true h = cc
send-Back c u false h = Back-eq (semaphore (suc c) u) h (semaphore (suc c) u, refl, (refl, refl))

Result-cases : (r : Result Denied Leaf) → ((m : Leaf) × (r ≡ ok m)) ⊎ ((d : Denied) × (r ≡ err d))
Result-cases (ok m) = inl (m, refl)
Result-cases (err d) = inr (d, refl)

take_leaf-Back : (l : Leaf) {m : Leaf} → take_leaf l ≡ ok m → Back l m
unfolding take_leaf receive release_leaf
take_leaf-Back (semaphore zero u) h =
    Back-eq (semaphore zero u) h (semaphore zero u, refl, (refl, refl))
take_leaf-Back (semaphore (suc c) u) h = send-Back c u (leb (suc c) u) h
take_leaf-Back (rate zero t c) h =
    Back-eq (rate zero t c) h (rate zero t c, refl, (refl, omega arith, refl))
take_leaf-Back (rate (suc b) zero true) h = cc
take_leaf-Back (rate (suc b) zero false) h = cc
take_leaf-Back (rate (suc b) (suc t) c) h =
    Back-eq (rate (suc b) (suc t) c) h (rate (suc b) t c, refl, (refl, omega arith, refl))

-- Each of the limiters can be released.
abbrev BackEach : List Leaf → List Leaf → Type 0
BackEach [] [] = Unit
BackEach (k ∷ ks) (l ∷ ls) = Back k l × BackEach ks ls
BackEach _ _ = ⊥

BackEach-append :
    (ks ls : List Leaf) (l m : Leaf)
    → BackEach ks ls
    → Back l m
    → BackEach (ks ++ (l ∷ [])) (ls ++ (m ∷ []))
BackEach-append [] [] l m h b = (b, tt)
BackEach-append (j ∷ ks) (k ∷ ls) l m h b = (h.0, BackEach-append ks ls l m h.1 b)
BackEach-append [] (k ∷ ls) l m h b = absurd h
BackEach-append (j ∷ ks) [] l m h b = absurd h

BackEach-BackAll : (ks ls : List Leaf) → BackEach ks ls → BackAll ks ls
unfolding release_all and_then
BackEach-BackAll [] [] h = ([], refl, tt)
BackEach-BackAll (k ∷ ks) (l ∷ ls) h =
    let (m, e, sp) = h.0 in
    let (ms, es, sps) = BackEach-BackAll ks ls h.1 in (m ∷ ms, rw (e, es) refl, (sp, sps))
BackEach-BackAll [] (l ∷ ls) h = absurd h
BackEach-BackAll (k ∷ ks) [] h = absurd h

-- What a take of several limiters promises, for each outcome: taken, they can be released, which
-- gives back what a semaphore counts; refused, they are as they were but for tokens; and the undoing
-- never panics.
abbrev pub Restores : List Leaf → Taken (List Leaf) → Type 0
Restores ls (took ms) = BackAll ls ms
Restores ls (refused e ms) = SpentAll ls ms
Restores ls panicked = ⊥

undone-Restores :
    (e : Denied) (ks ls rest : List Leaf)
    → BackAll ks ls
    → Restores (ks ++ rest) (undone e (release_all ls) rest)
unfolding undone
undone-Restores e ks ls rest h =
    let (ms, q, sp) = h in rw q (SpentAll-append ks ms rest rest sp (SpentAll-refl rest))

take_from-Restores :
    (ks ls rest : List Leaf) → BackEach ks ls → Restores (ks ++ rest) (take_from ls rest)
unfolding take_from on_take
take_from-Restores ks ls [] h = rw append-nil (BackEach-BackAll ks ls h)
take_from-Restores ks ls (r ∷ rest) h = elim (Result-cases (take_leaf r)) [
  | inl (m, e) ↦ rw e (
      rw (← append_assoc ks (r ∷ []) rest) (
        take_from-Restores (ks ++ (r ∷ [])) (ls ++ (m ∷ [])) rest
          (BackEach-append ks ls r m h (take_leaf-Back r e))))
  | inr (d, e) ↦ rw e (undone-Restores d ks ls (r ∷ rest) (BackEach-BackAll ks ls h))
]

-- For every list of limiters: if all are taken, releasing them works and leaves every semaphore as
-- it was; if one refuses, those before it are released and every semaphore is as it was; the
-- buckets of rates lose tokens at most; and the undoing never panics.
pub take_all-Restores : (ls : List Leaf) → Restores ls (take_all ls)
unfolding take_all
take_all-Restores ls = take_from-Restores [] [] ls tt
