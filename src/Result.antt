-- ===== src/Result.antt =====
-- The exceptions of include/flexi_cfg/config/exceptions.h, and those of the standard library and of
-- PEGTL that the code throws. A function that may throw returns a `Result`. The messages, which say
-- where the error was met and which `Reader` prepends to, are left out.
use flexi_config_reader.Common.{
  List, [], ◌∷◌, ◌≡◌, refl, Bool, true, false, ◌⊎◌, inl, inr, if◌then◌else◌, subst, Option, none,
  some,
}

pub data Exception : Type 0 where
  plain : Exception
  invalid_type invalid_state invalid_config invalid_key : Exception
  duplicate_key mismatch_key mismatch_type : Exception
  undefined_reference_var undefined_proto cyclic_reference : Exception
  duplicate_override invalid_override : Exception
  runtime_error logic_error out_of_range system_error parse_error : Exception
  -- no exception: what the C++ leaves undefined, such as `back` of an empty vector
  undefined : Exception

pub data Result {μ} (X : Type μ) : Type μ where
  throw : Exception → Result X
  ok : X → Result X

-- the statement `if (test) throw …`
abbrev pub throw_if : Bool → Exception → Result (Unit {0})
throw_if false exception = ok tt
throw_if true exception = throw exception

infixl 5 ◌>>=◌
abbrev pub ◌>>=◌ {μ ν} : {X : Type μ} {Y : Type ν} → Result X → (X → Result Y) → Result Y
throw exception >>= next = throw exception
ok x >>= next = next x

-- one statement after the other
infixl 5 ◌>>◌
abbrev pub ◌>>◌ {ν} : {Y : Type ν} → Result (Unit {0}) → Result Y → Result Y
first >> after = first >>= λ done. after

-- what holds of the value, if one is returned
abbrev pub Ensures {μ} : {X : Type μ} → (X → Type 0) → Result X → Type 0
Ensures P (throw exception) = Unit
Ensures P (ok x) = P x

-- the value of a result that ensures a property
pub Ensures-ok {μ} :
    {X : Type μ} (P : X → Type 0) {result : Result X} {x : X}
    → result ≡ ok x
    → Ensures P result
    → P x
Ensures-ok P returned p = subst (Ensures P) returned p

-- what a function on fuel returns; `none` means that the fuel ran out
abbrev pub Run {μ} : Type μ → Type μ
Run X = Option (Result X)

infixl 5 ◌>>>=◌
abbrev pub ◌>>>=◌ {μ ν} : {X : Type μ} {Y : Type ν} → Run X → (X → Run Y) → Run Y
none >>>= next = none
some (throw exception) >>>= next = some (throw exception)
some (ok x) >>>= next = next x

-- The fuel was enough, and the property holds of the value, if one is returned.
abbrev pub Settles {μ} : {X : Type μ} → (X → Type 0) → Run X → Type 0
Settles P none = ⊥
Settles P (some result) = Ensures P result

pub Settles-bind {μ ν} :
    {X : Type μ} {Y : Type ν} (P : X → Type 0) (Q : Y → Type 0) (first : Run X) (next : X → Run Y)
    → Settles P first
    → ((x : X) → P x → Settles Q (next x))
    → Settles Q (first >>>= next)
Settles-bind P Q none next p step = absurd p
Settles-bind P Q (some (throw exception)) next p step = tt
Settles-bind P Q (some (ok x)) next p step = step x p

pub Settles-map {μ} :
    {X : Type μ} (P Q : X → Type 0) (run : Run X)
    → ((x : X) → P x → Q x)
    → Settles P run
    → Settles Q run
Settles-map P Q none step p = p
Settles-map P Q (some (throw exception)) step p = tt
Settles-map P Q (some (ok x)) step p = step x p

pub Settles-option {μ ν} :
    {X : Type μ} {Y : Type ν} (P : Y → Type 0) (option : Option X) (run : Run Y) (next : X → Run Y)
    → Settles P run
    → ((x : X) → Settles P (next x))
    → Settles P (elim option as (λ _. Run Y) [ none ↦ run | some x ↦ next x ])
Settles-option P none run next p step = p
Settles-option P (some x) run next p step = step x

pub Settles-list {μ ν} :
    {X : Type μ} {Y : Type ν} (P : Y → Type 0) (list : List X) (run : Run Y)
    (next : X → List X → Run Y)
    → Settles P run
    → ((x : X) (xs : List X) → list ≡ x ∷ xs → Settles P (next x xs))
    → Settles P (elim list as (λ _. Run Y) [ [] ↦ run | x ∷ xs ↦ next x xs ])
Settles-list P [] run next p step = p
Settles-list P (x ∷ xs) run next p step = step x xs refl

-- what a run returns is what it is
pub Settles-self :
    {X : Type 0} (P : X → Type 0) (run : Run X)
    → Settles P run
    → Settles (λ x. P x × (run ≡ some (ok x))) run
Settles-self P none p = p
Settles-self P (some (throw exception)) p = tt
Settles-self P (some (ok x)) p = (p, refl)

pub Settles-both :
    {X : Type 0} (P Q : X → Type 0) (run : Run X)
    → Settles P run
    → Settles Q run
    → Settles (λ x. P x × Q x) run
Settles-both P Q none p q = p
Settles-both P Q (some (throw exception)) p q = tt
Settles-both P Q (some (ok x)) p q = (p, q)

-- a run that settles is a result
pub Settles-some {μ} :
    {X : Type μ} (P : X → Type 0) (run : Run X)
    → Settles P run
    → (result : Result X) × (run ≡ some result) × ((x : X) → result ≡ ok x → P x)
Settles-some P none p = absurd p
Settles-some P (some result) p = (result, refl, λ x e. Ensures-ok P e p)

pub Result-cases {ℓ} :
    {A : Type ℓ} (r : Result A) → ((e : Exception) × (r ≡ throw e)) ⊎ ((a : A) × (r ≡ ok a))
Result-cases (ok a) = inr (a, refl)
Result-cases (throw e) = inl (e, refl)

pub bind_assoc {ℓ κ μ} :
    {A : Type ℓ} {B : Type κ} {C : Type μ} (m : Result A) (f : A → Result B) (g : B → Result C)
    → ((m >>= f) >>= g) ≡ (m >>= λ a. f a >>= g)
bind_assoc (ok a) f g = refl
bind_assoc (throw e) f g = refl

pub bind_ext {ℓ κ} :
    {A : Type ℓ} {B : Type κ} (m : Result A) (f g : A → Result B)
    → ((a : A) → f a ≡ g a)
    → (m >>= f) ≡ (m >>= g)
bind_ext (ok a) f g h = h a
bind_ext (throw e) f g h = refl

-- a chain that returns has returned at its first step
pub >>=-eq-ok {μ ν} :
    {X : Type μ} {Y : Type ν} (first : Result X) (next : X → Result Y) {y : Y}
    → (first >>= next) ≡ ok y
    → (x : X) × (first ≡ ok x) × (next x ≡ ok y)
>>=-eq-ok (throw exception) next returned = cc
>>=-eq-ok (ok x) next returned = (x, refl, returned)

pub Ensures-bind {μ ν} :
    {X : Type μ} {Y : Type ν} (P : X → Type 0) (Q : Y → Type 0) (first : Result X)
    (next : X → Result Y)
    → Ensures P first
    → ((x : X) → P x → Ensures Q (next x))
    → Ensures Q (first >>= next)
Ensures-bind P Q (throw exception) next p step = tt
Ensures-bind P Q (ok x) next p step = step x p

pub Ensures-map {μ} :
    {X : Type μ} (P Q : X → Type 0) (result : Result X)
    → ((x : X) → P x → Q x)
    → Ensures P result
    → Ensures Q result
Ensures-map P Q (throw exception) step p = tt
Ensures-map P Q (ok x) step p = step x p

-- a result is what it is
pub Ensures-self : {X : Type 0} (result : Result X) → Ensures (λ x. result ≡ ok x) result
Ensures-self (throw exception) = tt
Ensures-self (ok x) = refl

pub Ensures-any {μ} : {X : Type μ} (result : Result X) → Ensures (λ _. Unit) result
Ensures-any (throw exception) = tt
Ensures-any (ok x) = tt

pub Ensures-bool {μ} :
    {X : Type μ} (P : X → Type 0) (test : Bool) (otherwise then_so : Result X)
    → Ensures P otherwise
    → Ensures P then_so
    → Ensures P (elim test as (λ _. Result X) [ false ↦ otherwise | true ↦ then_so ])
Ensures-bool P false otherwise then_so p q = p
Ensures-bool P true otherwise then_so p q = q

pub Ensures-option {μ ν} :
    {X : Type μ} {Y : Type ν} (P : Y → Type 0) (option : Option X) (result : Result Y)
    (next : X → Result Y)
    → Ensures P result
    → ((x : X) → Ensures P (next x))
    → Ensures P (elim option as (λ _. Result Y) [ none ↦ result | some x ↦ next x ])
Ensures-option P none result next p step = p
Ensures-option P (some x) result next p step = step x

-- a value that is returned unless a test holds
pub Ensures-if {μ} :
    {X : Type μ} (P : X → Type 0) (test : Bool) (exception : Exception) (x : X)
    → P x
    → Ensures P (if test then throw exception else ok x)
Ensures-if P true exception x p = tt
Ensures-if P false exception x p = p

-- what holds of the second step's value, whatever the first one's is
pub Ensures-after {μ ν} :
    {X : Type μ} {Y : Type ν} (P : Y → Type 0) (first : Result X) (next : X → Result Y)
    → ((x : X) → Ensures P (next x))
    → Ensures P (first >>= next)
Ensures-after P first next step =
    Ensures-bind (λ _. Unit) P first next (Ensures-any first) (λ x _. step x)

pub Ensures-list {μ ν} :
    {X : Type μ} {Y : Type ν} (P : Y → Type 0) (list : List X) (result : Result Y)
    (next : X → List X → Result Y)
    → Ensures P result
    → ((x : X) (xs : List X) → Ensures P (next x xs))
    → Ensures P (elim list as (λ _. Result Y) [ [] ↦ result | x ∷ xs ↦ next x xs ])
Ensures-list P [] result next p step = p
Ensures-list P (x ∷ xs) result next p step = step x xs

pub Ensures-choice {μ} :
    {X : Type μ} (P : X → Type 0) (test : Bool) (chosen otherwise : Result X)
    → Ensures P chosen
    → Ensures P otherwise
    → Ensures P (if test then chosen else otherwise)
Ensures-choice P true chosen otherwise p q = p
Ensures-choice P false chosen otherwise p q = q
