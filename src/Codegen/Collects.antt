-- ===== src/Codegen/Collects.antt =====
-- The response types that the generator specializes its writers for.
use grpc_uds.Prelude.{
  same_bytes_self, ◌≡◌, refl, sym, ap, ◌∙◌, Bool, true, false, List, [], ◌∷◌, ◌++◌, ◌&&◌, ◌||◌,
  if◌then◌else◌, same_bytes, arith, Bool-cases, inl, inr, both_ways,
}
use mathlib.Core.Path.{subst}
use grpc_uds.Capi.Health.Statuses.{same_bytes-eq}
use grpc_uds.Codegen.{
  Text, Method, Service, qualified_type, contains, push_new, is_asked, collect_methods,
  collect_services, collect_resp_types,
}

-- No text stands in the list twice.
abbrev pub IsUnique : List Text → Type 0
IsUnique [] = Unit
IsUnique (x ∷ xs) = (contains x xs ≡ false) × IsUnique xs

contains-snoc :
    (t x : Text) (xs : List Text) → contains t (xs ++ (x ∷ [])) ≡ (contains t xs || same_bytes x t)
unfolding contains
contains-snoc t x [] = go (same_bytes x t)
  where
    go : (b : Bool) → (b || false) ≡ b
    go true = refl
    go false = refl
contains-snoc t x (y ∷ ys) = let rest = contains-snoc t x ys in ground (arith, rest)

contains-push_new :
    (t x : Text) (xs : List Text) → contains t (push_new x xs) ≡ (contains t xs || same_bytes x t)
unfolding push_new
contains-push_new t x xs = elim (Bool-cases (contains x xs)) [
  | inl there ↦ rw there (same there)
  | inr new ↦ rw new (contains-snoc t x xs)
]
  where
    same : contains x xs ≡ true → contains t xs ≡ (contains t xs || same_bytes x t)
    same there = elim (Bool-cases (same_bytes x t)) [
      | inl hit ↦
          let found : contains t xs ≡ true =
            subst (λ k. contains k xs ≡ true) (same_bytes-eq x t hit) there in
          rw found refl
      | inr miss ↦ ground (arith, miss)
    ]

not_same_sym : (x t : Text) → same_bytes x t ≡ false → same_bytes t x ≡ false
not_same_sym x t h = elim (Bool-cases (same_bytes t x)) [
  | inl hit ↦
      let self : same_bytes x t ≡ true =
        subst (λ k. same_bytes x k ≡ true) (sym (same_bytes-eq t x hit)) (same_bytes_self x) in
      absurd (cc)
  | inr miss ↦ miss
]

IsUnique-snoc :
    (x : Text) (xs : List Text) → contains x xs ≡ false → IsUnique xs → IsUnique (xs ++ (x ∷ []))
unfolding contains
IsUnique-snoc x [] h u = (refl, tt)
IsUnique-snoc x (y ∷ ys) h (u, us) =
    let rest = IsUnique-snoc x ys (ground arith) us in
    let apart = not_same_sym y x (ground arith) in
    let at = contains-snoc y x ys in (ground (arith, at, apart), rest)

IsUnique-push_new : (x : Text) (xs : List Text) → IsUnique xs → IsUnique (push_new x xs)
unfolding push_new
IsUnique-push_new x xs u = elim (Bool-cases (contains x xs)) [
  | inl there ↦ rw there u
  | inr new ↦ rw new (IsUnique-snoc x xs new u)
]

-- A method of the flavor whose response has this type.
abbrev responds : Bool → Text → Method → Bool
responds streaming t m = is_asked streaming m && same_bytes (qualified_type m.output_type) t

abbrev any_method : Bool → Text → List Method → Bool
any_method streaming t [] = false
any_method streaming t (m ∷ ms) = responds streaming t m || any_method streaming t ms

abbrev pub any_service : Bool → Text → List Service → Bool
any_service streaming t [] = false
any_service streaming t (s ∷ ss) = any_method streaming t s.methods || any_service streaming t ss

or_assoc : (a b c : Bool) → ((a || b) || c) ≡ (a || (b || c))
or_assoc true b c = refl
or_assoc false b c = refl

or_false : (a : Bool) → (a || false) ≡ a
or_false true = refl
or_false false = refl

step_contains :
    (streaming : Bool) (t : Text) (m : Method) (out : List Text)
    → contains t (if is_asked streaming m then push_new (qualified_type m.output_type) out else out)
      ≡ (contains t out || responds streaming t m)
step_contains streaming t m out = go (is_asked streaming m)
  where
    go :
        (b : Bool)
        → contains t (if b then push_new (qualified_type m.output_type) out else out)
          ≡ (contains t out || (b && same_bytes (qualified_type m.output_type) t))
    go true = contains-push_new t (qualified_type m.output_type) out
    go false = sym (or_false (contains t out))

contains-collect_methods :
    (streaming : Bool) (t : Text) (ms : List Method) (out : List Text)
    → contains t (collect_methods streaming ms out) ≡ (contains t out || any_method streaming t ms)
unfolding collect_methods
contains-collect_methods streaming t [] out = sym (or_false (contains t out))
contains-collect_methods streaming t (m ∷ ms) out =
    contains-collect_methods streaming t ms _
    ∙ ap (λ b. b || any_method streaming t ms) (step_contains streaming t m out)
    ∙ or_assoc (contains t out) (responds streaming t m) (any_method streaming t ms)

contains-collect_services :
    (streaming : Bool) (t : Text) (ss : List Service) (out : List Text)
    → contains t (collect_services streaming ss out)
      ≡ (contains t out || any_service streaming t ss)
unfolding collect_services
contains-collect_services streaming t [] out = sym (or_false (contains t out))
contains-collect_services streaming t (s ∷ ss) out =
    contains-collect_services streaming t ss (collect_methods streaming s.methods out)
    ∙ ap (λ b. b || any_service streaming t ss) (contains-collect_methods streaming t s.methods out)
    ∙ or_assoc (contains t out) (any_method streaming t s.methods) (any_service streaming t ss)

IsUnique-collect_methods :
    (streaming : Bool) (ms : List Method) (out : List Text)
    → IsUnique out
    → IsUnique (collect_methods streaming ms out)
unfolding collect_methods
IsUnique-collect_methods streaming [] out u = u
IsUnique-collect_methods streaming (m ∷ ms) out u = IsUnique-collect_methods streaming ms _ (
    both_ways IsUnique (is_asked streaming m) (push_new (qualified_type m.output_type) out) out
      (IsUnique-push_new (qualified_type m.output_type) out u) u)

IsUnique-collect_services :
    (streaming : Bool) (ss : List Service) (out : List Text)
    → IsUnique out
    → IsUnique (collect_services streaming ss out)
unfolding collect_services
IsUnique-collect_services streaming [] out u = u
IsUnique-collect_services streaming (s ∷ ss) out u =
    IsUnique-collect_services streaming ss (collect_methods streaming s.methods out)
      (IsUnique-collect_methods streaming s.methods out u)

-- The types collected for one flavor of streaming are all different, and they are those of the
-- responses of the services' methods of that flavor.
pub collect_resp_types-IsUnique :
    (services : List Service) (streaming : Bool)
    → IsUnique (collect_resp_types services streaming)
      × ((t : Text)
          → contains t (collect_resp_types services streaming) ≡ any_service streaming t services)
unfolding collect_resp_types contains
collect_resp_types-IsUnique services streaming = (
  IsUnique-collect_services streaming services [] tt,
  λ t. contains-collect_services streaming t services [],
)
