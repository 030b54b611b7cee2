-- ===== src/Prelude/Exec.antt =====
-- What a Go function that returns an error, or panics, comes to, and such functions over a state that
-- they write. What was written before an error stays written, so the state comes back beside it.
use mathlib.Core.Path.{◌≡◌, refl, ap}
use mathlib.Core.Logic.{◌⊎◌, inl, inr}
use mathlib.Core.Bool.{Bool, true, false, not}
use mathlib.Core.Option.{Option, none, some}
use go_execution_abci.Prelude.Tests.{if◌then◌else◌}

pub data Outcome (E A : Type 0) : Type 0 where
  ok : A → Outcome E A
  err : E → Outcome E A
  panic : Outcome E A

-- The rest of a function after a call: it runs only if the call returned a value.
abbrev pub then_ok : {E A B : Type 0} → Outcome E A → (A → Outcome E B) → Outcome E B
then_ok (ok a) f = f a
then_ok (err e) f = err e
then_ok panic f = panic

-- Inversion of a call that returned a value.
pub then_ok-eq-ok :
    {E A B : Type 0} (m : Outcome E A) (f : A → Outcome E B) {b : B}
    → then_ok m f ≡ ok b
    → (a : A) × (m ≡ ok a) × (f a ≡ ok b)
then_ok-eq-ok (ok a) f h = (a, refl, h)
then_ok-eq-ok (err e) f h = cc
then_ok-eq-ok panic f h = cc

pub Outcome-cases :
    {E A : Type 0} (r : Outcome E A)
    → ((a : A) × (r ≡ ok a)) ⊎ ((e : E) × (r ≡ err e)) ⊎ (r ≡ panic)
Outcome-cases (ok a) = inl (a, refl)
Outcome-cases (err e) = inr (inl (e, refl))
Outcome-cases panic = inr (inr refl)

abbrev pub or_err : {E A : Type 0} → Option A → E → Outcome E A
or_err none e = err e
or_err (some a) e = ok a

-- `if err != nil { panic(err) }`.
abbrev pub or_panic : {E A : Type 0} → Outcome E A → Outcome E A
or_panic (ok a) = ok a
or_panic (err e) = panic
or_panic panic = panic

abbrev pub ensure : {E : Type 0} → Bool → E → Outcome E (Unit {0})
ensure true e = ok tt
ensure false e = err e

abbrev pub Exec : Type 0 → Type 0 → Type 0 → Type 0
Exec E S A = S → Outcome E A × S

abbrev pub continue : {E S A B : Type 0} → Outcome E A → S → (A → Exec E S B) → Outcome E B × S
continue (ok a) s f = f a s
continue (err e) s f = (err e, s)
continue panic s f = (panic, s)

infixl 5 ◌>>=◌ ◌>>◌
abbrev pub ◌>>=◌ : {E S A B : Type 0} → Exec E S A → (A → Exec E S B) → Exec E S B
◌>>=◌ m f s = let (r, s') = m s in continue r s' f

abbrev pub ◌>>◌ : {E S A B : Type 0} → Exec E S A → Exec E S B → Exec E S B
m >> k = m >>= λ _. k

abbrev pub pure : {E S A : Type 0} → A → Exec E S A
pure a s = (ok a, s)

-- A call that reads the state and may fail.
abbrev pub reads : {E S A : Type 0} → (S → Outcome E A) → Exec E S A
reads f s = (f s, s)

abbrev pub gets : {E S A : Type 0} → (S → A) → Exec E S A
gets f s = (ok (f s), s)

abbrev pub modify : {E S : Type 0} → (S → S) → Exec E S (Unit {0})
modify f s = (ok tt, f s)

abbrev pub guard : {E S : Type 0} → Bool → E → Exec E S (Unit {0})
guard b e s = (ensure b e, s)

-- Inversion of one step of a function that returned a value, and of the guards among the steps.
pub continue-eq-ok :
    {E S A B : Type 0} (r : Outcome E A) (s : S) (f : A → Exec E S B) {b : B} {s' : S}
    → continue r s f ≡ (ok b, s')
    → (a : A) × (r ≡ ok a) × (f a s ≡ (ok b, s'))
continue-eq-ok (ok a) s f h = (a, refl, h)
continue-eq-ok (err e) s f h = cc (ap (λ r. r.0) h)
continue-eq-ok panic s f h = cc (ap (λ r. r.0) h)

pub ensure-eq-ok : {E : Type 0} (b : Bool) (e : E) {u : Unit {0}} → ensure b e ≡ ok u → b ≡ true
ensure-eq-ok true e h = refl
ensure-eq-ok false e h = cc

pub or_err-eq-ok : {E A : Type 0} (o : Option A) (e : E) {a : A} → or_err o e ≡ ok a → o ≡ some a
or_err-eq-ok none e h = cc
or_err-eq-ok (some a) e h = cc

pub ensure-not-eq-ok :
    {E : Type 0} (b : Bool) (e : E) {u : Unit {0}} → ensure (not b) e ≡ ok u → b ≡ false
ensure-not-eq-ok true e h = cc
ensure-not-eq-ok false e h = refl

pub continue_cong :
    {E S A B : Type 0} (r : Outcome E A) (s : S) (f g : A → Exec E S B)
    → ((a : A) (t : S) → f a t ≡ g a t)
    → continue r s f ≡ continue r s g
continue_cong (ok a) s f g h = h a s
continue_cong (err e) s f g h = refl
continue_cong panic s f g h = refl

pub continue_assoc :
    {E S A B C : Type 0} (r : Outcome E A) (s : S) (f : A → Exec E S B) (g : B → Exec E S C)
    → continue r s (λ a. f a >>= g) ≡ continue (continue r s f).0 (continue r s f).1 g
continue_assoc (ok a) s f g = refl
continue_assoc (err e) s f g = refl
continue_assoc panic s f g = refl

-- Steps that do the same go on with the same.
pub >>-cong :
    {E S A B : Type 0} (m : Exec E S A) {k k' : Exec E S B}
    → ((t : S) → k t ≡ k' t)
    → (s : S) → (m >> k) s ≡ (m >> k') s
>>-cong m {k = k} {k' = k'} h s = continue_cong (m s).0 (m s).1 (λ _. k) (λ _. k') (λ _ t. h t)

pub >>-assoc :
    {E S A B C : Type 0} (m : Exec E S A) (k : Exec E S B) (l : Exec E S C) (s : S)
    → (m >> (k >> l)) s ≡ ((m >> k) >> l) s
>>-assoc m k l s = continue_assoc (m s).0 (m s).1 (λ _. k) (λ _. l)

-- What a function keeps, whatever it comes to.
pub record Keeps {E S A : Type 0} (P : S → Type 0) (m : Exec E S A) : Type 0 where
  pub keeps : (s : S) → P s → P (m s).1

pub continue-keeps :
    {E S A B : Type 0} (P : S → Type 0) (r : Outcome E A) (s : S) (f : A → Exec E S B)
    → P s
    → ((a : A) → Keeps P (f a))
    → P (continue r s f).1
continue-keeps P (ok a) s f h k = (k a).keeps s h
continue-keeps P (err e) s f h k = h
continue-keeps P panic s f h k = h

pub >>=-Keeps :
    {E S A B : Type 0} (P : S → Type 0) (m : Exec E S A) (f : A → Exec E S B)
    → Keeps P m
    → ((a : A) → Keeps P (f a))
    → Keeps P (m >>= f)
>>=-Keeps P m f h k = record { keeps = λ s p. continue-keeps P (m s).0 (m s).1 f (h.keeps s p) k }

pub if-Keeps :
    {E S A : Type 0} (P : S → Type 0) (b : Bool) (m n : Exec E S A)
    → Keeps P m
    → Keeps P n
    → Keeps P (if b then m else n)
if-Keeps P true m n h k = h
if-Keeps P false m n h k = k

pub reads-Keeps :
    {E S A B : Type 0} (P : S → Type 0) (g : S → Outcome E A) {f : A → Exec E S B}
    → ((a : A) → Keeps P (f a))
    → Keeps P (reads g >>= f)
reads-Keeps P g {f = f} k = >>=-Keeps P (reads g) f record { keeps = λ _ h. h } k

-- For a step that keeps it plainly.
pub step-Keeps :
    {E S A B : Type 0} (P : S → Type 0) (m : Exec E S A) {f : A → Exec E S B}
    → ((s : S) → P s → P (m s).1)
    → ((a : A) → Keeps P (f a))
    → Keeps P (m >>= f)
step-Keeps P m {f = f} h k = >>=-Keeps P m f record { keeps = h } k

pub ok_inj : {E A : Type 0} {a b : A} → ◌≡◌ {A = Outcome E A} (ok a) (ok b) → a ≡ b
ok_inj {a = a} h = ap (λ r. elim r [ ok x ↦ x | err e ↦ a | panic ↦ a ]) h

-- A step that returned, by its two results.
pub returned :
    {E S A : Type 0} {x : Outcome E A × S} {a : A} {s : S} → x.0 ≡ ok a → x.1 ≡ s → x ≡ (ok a, s)
returned h k = cc

abbrev pub map_err : {E F A : Type 0} → (E → F) → Outcome E A → Outcome F A
map_err f (ok a) = ok a
map_err f (err e) = err (f e)
map_err f panic = panic

pub map_err-eq-ok :
    {E F A : Type 0} (f : E → F) (m : Outcome E A) {a : A} → map_err f m ≡ ok a → m ≡ ok a
map_err-eq-ok f (ok a) h = ap ok (ok_inj h)
map_err-eq-ok f (err e) h = cc
map_err-eq-ok f panic h = cc
