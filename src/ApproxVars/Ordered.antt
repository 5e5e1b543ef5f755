-- ===== src/ApproxVars/Ordered.antt =====
-- The set's order, and its operations as those of a map from addresses.
use mathlib.Core.Option
use sniper.Base.{
  ℕ, suc, ◌≤◌, ◌<◌, ◌≡◌, refl, true, false, none, some, List, map, [], ◌∷◌, ◌==◌, if◌then◌else◌,
  arith,
}
use sniper.ApproxVars.{AppVar, find_var, insert_var, erase_var, update_var}

-- Addresses from `n` on, rising.
abbrev pub Above : ℕ → List AppVar → Type 0
Above n [] = Unit {0}
Above n (v ∷ vars) = (n ≤ v.addr) × Above (suc v.addr) vars

abbrev pub Ordered : List AppVar → Type 0
Ordered vars = Above 0 vars

pub Above-mono : {m n : ℕ} (vars : List AppVar) → m ≤ n → Above n vars → Above m vars
Above-mono [] h a = tt
Above-mono (v ∷ vars) h a = (omega arith, a.1)

pub find_var-below : (a n : ℕ) (vars : List AppVar) → Above n vars → a < n → find_var a vars ≡ none
unfolding find_var
find_var-below a n [] h lt = refl
find_var-below a n (v ∷ vars) h lt = ground (arith, find_var-below a (suc v.addr) vars h.1)

pub insert_var-Above :
    (v : AppVar) (n : ℕ) (vars : List AppVar)
    → n ≤ v.addr
    → Above n vars
    → Above n (insert_var v vars).0
unfolding insert_var
insert_var-Above v n [] h a = (h, tt)
insert_var-Above v n (w ∷ vars) h a = ground (arith, insert_var-Above v (suc w.addr) vars)

pub erase_var-Above : (a n : ℕ) (vars : List AppVar) → Above n vars → Above n (erase_var a vars)
unfolding erase_var
erase_var-Above a n [] h = tt
erase_var-Above a n (v ∷ vars) h =
    ground
      (arith, erase_var-Above a (suc v.addr) vars h.1, Above-mono {m = n} {n = suc v.addr} vars)

pub update_var-Above :
    (f : AppVar → AppVar) (a n : ℕ) (vars : List AppVar)
    → ((v : AppVar) → (f v).addr ≡ v.addr)
    → Above n vars
    → Above n (update_var f a vars)
unfolding update_var
update_var-Above f a n [] same h = tt
update_var-Above f a n (v ∷ vars) same h =
    ground (arith, update_var-Above f a (suc v.addr) vars same h.1, same v)

-- An insertion adds the element unless its address is taken, and reports that.
pub find-insert_var :
    (v : AppVar) (n j : ℕ) (vars : List AppVar)
    → Above n vars
    → find_var j (insert_var v vars).0
      ≡ (if v.addr == j then some (Option.get_or (find_var j vars) v) else find_var j vars)
unfolding find_var insert_var
find-insert_var v n j [] a = ground arith
find-insert_var v n j (w ∷ vars) a =
    ground
      (arith, find-insert_var v (suc w.addr) j vars a.1, find_var-below j (suc w.addr) vars a.1)

pub insert_var-new :
    (v : AppVar) (n : ℕ) (vars : List AppVar)
    → Above n vars
    → (insert_var v vars).1 ≡ elim (find_var v.addr vars) [ none ↦ true | some _ ↦ false ]
unfolding find_var insert_var
insert_var-new v n [] a = refl
insert_var-new v n (w ∷ vars) a =
    ground
      (arith, insert_var-new v (suc w.addr) vars a.1, find_var-below v.addr (suc w.addr) vars a.1)

pub find-erase_var :
    (a n j : ℕ) (vars : List AppVar)
    → Above n vars
    → find_var j (erase_var a vars) ≡ (if a == j then none else find_var j vars)
unfolding find_var erase_var
find-erase_var a n j [] h = ground arith
find-erase_var a n j (v ∷ vars) h =
    ground (arith, find-erase_var a (suc v.addr) j vars h.1, find_var-below j (suc v.addr) vars h.1)

pub find-update_var :
    (f : AppVar → AppVar) (a j : ℕ) (vars : List AppVar)
    → ((v : AppVar) → (f v).addr ≡ v.addr)
    → find_var j (update_var f a vars)
      ≡ (if a == j then Option.map f (find_var j vars) else find_var j vars)
unfolding find_var update_var
find-update_var f a j [] same = ground arith
find-update_var f a j (v ∷ vars) same = ground (arith, find-update_var f a j vars same, same v)

pub find_var-addr :
    (a : ℕ) (vars : List AppVar) {v : AppVar} → find_var a vars ≡ some v → v.addr ≡ a
unfolding find_var
find_var-addr a [] e = absurd (cc e)
find_var-addr a (w ∷ vars) {v} e = ground (arith, find_var-addr a vars {v = v})

pub find_var-nil : (a : ℕ) → find_var a [] ≡ none
unfolding find_var
find_var-nil a = refl

-- The elements may all be changed, but not their addresses.
module _ (f : AppVar → AppVar) (same : (v : AppVar) → (f v).addr ≡ v.addr) where
  pub map-Above : (n : ℕ) (vars : List AppVar) → Above n vars → Above n (map f vars)
  map-Above n [] h = tt
  map-Above n (v ∷ vars) h = rw (same v) (h.0, map-Above _ vars h.1)

  pub find-map :
      (a : ℕ) (vars : List AppVar) → find_var a (map f vars) ≡ Option.map f (find_var a vars)
  unfolding find_var
  find-map a [] = refl
  find-map a (v ∷ vars) = ground (arith, same v, find-map a vars)
