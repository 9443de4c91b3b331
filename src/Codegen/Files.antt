-- ===== src/Codegen/Files.antt =====
-- What the generator answers to a request.
use grpc_uds.Prelude.{
  ◌≡◌, refl, sym, ap, Bool, true, false, List, [], ◌∷◌, ◌++◌, Option, none, some, Result, ok, err,
  if◌then◌else◌, inl, inr, ◌⊎◌, All, arith, strip_prefix, reverse, codes, ◌==◌, ==_iff, ◌∙◌,
  Bool-cases,
}
use mathlib.Core.Path.{subst}
use mathlib.Core.List.{reverse-append, reverse-reverse}
use mathlib.Core.Option.{some-injective}
use grpc_uds.Codegen.{
  extensions, Text, Method, Service, ProtoFile, Refusal, and_next, first_refusal, refuse_method,
  refuse_c_method, refuse_service, from_base, named, generate, strip_proto, stripped, Response,
  is_picked, on_generated, run, is_reserved,
}

-- What a file that was generated from has: the methods of the mode's kind only.
abbrev pub IsServable : Bool → Method → Type 0
IsServable true m = (m.client_streaming ≡ false) × (is_reserved m.name ≡ false)
IsServable false m = m.client_streaming ≡ false

abbrev pub AllServable : Bool → ProtoFile → Type 0
AllServable c_mode f = All (λ (s : Service). All (IsServable c_mode) s.methods) f.services

-- Its name is a base name and `.proto`.
abbrev pub IsNamed : ProtoFile → Type 0
IsNamed f = (base : Text) × (f.name ≡ base ++ codes ".proto") × (strip_proto f.name ≡ some base)

strip_prefix-append : (p s r : Text) → strip_prefix p s ≡ some r → s ≡ p ++ r
strip_prefix-append [] s r e = some-injective s r e
strip_prefix-append (p ∷ ps) [] r e = absurd (cc)
strip_prefix-append (p ∷ ps) (c ∷ cs) r e = elim (Bool-cases (p == c)) [
  | inl hit ↦
      let here : p ≡ c = (==_iff p c).0 hit in
      rw (← here) (ap (◌∷◌ p) (strip_prefix-append ps cs r (rw hit at e)))
  | inr miss ↦ absurd (let bad : none ≡ some r = rw miss at e in cc)
]

strip_proto-append :
    (name base : Text) → strip_proto name ≡ some base → name ≡ base ++ codes ".proto"
unfolding strip_proto
strip_proto-append name base e = go (strip_prefix suffix (reverse name)) refl e
  where
    suffix : Text
    suffix = reverse (codes ".proto")

    go :
        (o : Option Text)
        → strip_prefix suffix (reverse name) ≡ o
        → stripped name o ≡ some base
        → name ≡ base ++ codes ".proto"
    go none at h = absurd (cc)
    go (some rest) at h =
        sym (reverse-reverse name)
        ∙ ap reverse (strip_prefix-append suffix (reverse name) rest at)
        ∙ reverse-append suffix rest
        ∙ ap (λ b. b ++ codes ".proto") (some-injective (reverse rest) base h)

first_refusal-none {ℓ κ} :
    {A : Type ℓ} (test : A → Option Refusal) (P : A → Type κ) (xs : List A)
    → ((a : A) → test a ≡ none → P a)
    → first_refusal test xs ≡ none
    → All P xs
unfolding first_refusal
first_refusal-none test P [] each h = tt
first_refusal-none test P (x ∷ xs) each h = go (test x) refl (first_refusal-none test P xs each) h
  where
    go :
        (r : Option Refusal)
        → test x ≡ r
        → (first_refusal test xs ≡ none → All P xs)
        → and_next r (first_refusal test xs) ≡ none
        → All P (x ∷ xs)
    go none e later h' = (each x e, later h')
    go (some r) e later h' = absurd (cc)

refuse_method-none :
    (c_mode : Bool) (s : Service)
    → refuse_service c_mode s ≡ none
    → All (IsServable c_mode) s.methods
refuse_method-none true s h = first_refusal-none refuse_c_method (IsServable true) s.methods each h
  where
    each : (m : Method) → refuse_c_method m ≡ none → IsServable true m
    each m e = ground arith
refuse_method-none false s h = first_refusal-none refuse_method (IsServable false) s.methods each h
  where
    each : (m : Method) → refuse_method m ≡ none → IsServable false m
    each m e = ground arith

-- The names of the two files of a base name.
abbrev pub names_of : Bool → Option Text → List Text
names_of c_mode none = []
names_of c_mode (some base) = (base ++ (extensions c_mode).0) ∷ (base ++ (extensions c_mode).1) ∷ []

abbrev Generated : Bool → ProtoFile → Result (List Text) Refusal → Type 0
Generated c_mode f (ok files) =
    AllServable c_mode f × IsNamed f × (files ≡ names_of c_mode (strip_proto f.name))
Generated c_mode f (err why) = Unit

generate-Generated : (c_mode : Bool) (f : ProtoFile) → Generated c_mode f (generate c_mode f)
unfolding generate
generate-Generated c_mode f =
    on_base (strip_proto f.name) refl (first_refusal (refuse_service c_mode) f.services) refl
  where
    on_base :
        (o : Option Text)
        → strip_proto f.name ≡ o
        → (r : Option Refusal) → first_refusal (refuse_service c_mode) f.services ≡ r
        → Generated c_mode f (from_base c_mode f o)
    on_base none e r h = tt
    on_base (some base) e none h =
        subst (λ x. Generated c_mode f (named c_mode base x)) (sym h)
          (
            first_refusal-none (refuse_service c_mode)
                (λ (s : Service). All (IsServable c_mode) s.methods) f.services
                (refuse_method-none c_mode) h,
            (base, strip_proto-append f.name base e, e),
            ap (names_of c_mode) (sym e),
          )
    on_base (some base) e (some why) h =
        subst (λ x. Generated c_mode f (named c_mode base x)) (sym h) tt

-- The files for those of the request that are wanted and have services.
abbrev pub outputs : Bool → List Text → List ProtoFile → List Text
outputs c_mode want [] = []
outputs c_mode want (f ∷ fs) =
    if is_picked want f
    then names_of c_mode (strip_proto f.name) ++ outputs c_mode want fs
    else outputs c_mode want fs

abbrev pub PickedServable : Bool → List Text → ProtoFile → Type 0
PickedServable c_mode want f = is_picked want f ≡ true → AllServable c_mode f × IsNamed f

-- A request that is answered whole, or up to the first file that is refused.
abbrev pub Answered : Bool → List Text → List ProtoFile → Response → Type 0
Answered c_mode want fs r =
    ((r.error ≡ none) × All (PickedServable c_mode want) fs × (r.files ≡ outputs c_mode want fs))
    ⊎ ((pre : List ProtoFile) × (f : ProtoFile) × (post : List ProtoFile) × (why : Refusal) × (fs
          ≡ pre ++ (f ∷ post))
        × (is_picked want f ≡ true)
        × (generate c_mode f ≡ err why)
        × (r.error ≡ some (f.name, why))
        × All (PickedServable c_mode want) pre
        × (r.files ≡ outputs c_mode want pre))

skip-Answered :
    (c_mode : Bool) (want : List Text) (g : ProtoFile) (fs : List ProtoFile) (r : Response)
    → is_picked want g ≡ false
    → Answered c_mode want fs r
    → Answered c_mode want (g ∷ fs) r
skip-Answered c_mode want g fs r miss (inl (e, servable, files)) =
    inl (e, (λ hit. absurd (cc), servable), rw miss files)
skip-Answered c_mode want g fs r miss
      (inr (pre, f, post, why, at, hit, refused, e, servable, files)) =
    inr (
      g ∷ pre,
      f,
      post,
      why,
      ap (◌∷◌ g) at,
      hit,
      refused,
      e,
      (λ hit. absurd (cc), servable),
      rw miss files,
    )

done-Answered :
    (c_mode : Bool) (want : List Text) (g : ProtoFile) (fs : List ProtoFile) (made : List Text)
    (r : Response)
    → is_picked want g ≡ true
    → AllServable c_mode g × IsNamed g
    → made ≡ names_of c_mode (strip_proto g.name)
    → Answered c_mode want fs r
    → Answered c_mode want (g ∷ fs) (record r { files = made ++ r.files })
done-Answered c_mode want g fs made r hit ok_g names (inl (e, servable, files)) =
    inl (e, (λ _. ok_g, servable), rw (hit, names, files) refl)
done-Answered c_mode want g fs made r hit ok_g names
      (inr (pre, f, post, why, at, hit_f, refused, e, servable, files)) =
    inr (
      g ∷ pre,
      f,
      post,
      why,
      ap (◌∷◌ g) at,
      hit_f,
      refused,
      e,
      (λ _. ok_g, servable),
      rw (hit, names, files) refl,
    )

-- The generator's answer to a request, in either mode: with no error, every file that is wanted and
-- has services is one whose name ends in `.proto` and whose methods take no stream from the client
-- and, in C mode, have no reserved name, and there are a header and a source for each of these
-- files, in order; with an error, it is that of the first file that was refused, and the files are
-- those for the ones before it.
pub run-Answered :
    (c_mode : Bool) (want : List Text) (fs : List ProtoFile)
    → Answered c_mode want fs (run c_mode want fs)
unfolding run
run-Answered c_mode want [] = inl (refl, tt, refl)
run-Answered c_mode want (f ∷ fs) = go (is_picked want f) refl (run-Answered c_mode want fs)
  where
    made :
        is_picked want f ≡ true
        → (g : Result (List Text) Refusal) → generate c_mode f ≡ g
        → Generated c_mode f g
        → Answered c_mode want fs (run c_mode want fs)
        → Answered c_mode want (f ∷ fs) (on_generated f.name (run c_mode want fs) g)
    made hit (ok files) e (servable, named, names) rest =
        done-Answered c_mode want f fs files (run c_mode want fs) hit (servable, named) names rest
    made hit (err why) e h rest = inr ([], f, fs, why, refl, hit, e, refl, tt, refl)

    go :
        (b : Bool)
        → is_picked want f ≡ b
        → Answered c_mode want fs (run c_mode want fs)
        → Answered c_mode want (f ∷ fs) (
            if b
            then on_generated f.name (run c_mode want fs) (generate c_mode f)
            else run c_mode want fs)
    go true hit rest = made hit (generate c_mode f) refl (generate-Generated c_mode f) rest
    go false miss rest = skip-Answered c_mode want f fs (run c_mode want fs) miss rest
