-- ===== src/Channels/Keys.antt =====
-- The keys of the parameters of a query: no filter is put under the key of another.
use epics_mcp_server.Prelude.{
  ◌≡◌, refl, sym, ap, ◌∙◌, ◌≢◌, ◌⊎◌, inl, inr, true, false, List, [], ◌∷◌, ◌++◌, arith, Bool-cases,
  All,
}
use mathlib.Core.Path.{subst}
use epics_mcp_server.Prelude.Texts.{
  Text, codes, is_empty, text_eq, text_eq_iff, text_eq, starts_with, Among,
}
use epics_mcp_server.Channels.{Params, put, ends_negated, negated, Building, filed}

-- No parameter has the key.
abbrev pub Absent : Text → Params → Type 0
Absent key = All (λ (k, v). k ≢ key)

pub put_fresh :
    (key value : Text) (ps : Params) → Absent key ps → put key value ps ≡ ps ++ (key, value) ∷ []
unfolding put
put_fresh key value [] h = refl
put_fresh key value ((k, v) ∷ ps) (n, h) = elim (Bool-cases (text_eq k key)) [
  | inl e ↦ absurd (n ((text_eq_iff k key).0 e))
  | inr e ↦ rw e (ap (λ (qs : Params). (k, v) ∷ qs) (put_fresh key value ps h))
]

pub All-append {ℓ κ} :
    {A : Type ℓ} (P : A → Type κ) (xs ys : List A) → All P xs → All P ys → All P (xs ++ ys)
All-append P [] ys p q = q
All-append P (x ∷ xs) ys (p, ps) q = (p, All-append P xs ys ps q)

pub All-map {ℓ κ η} :
    {A : Type ℓ} (P : A → Type κ) (Q : A → Type η) (xs : List A)
    → ((a : A) → P a → Q a)
    → All P xs
    → All Q xs
All-map P Q [] f h = tt
All-map P Q (x ∷ xs) f (p, ps) = (f x p, All-map P Q xs f ps)

pub ends_negated-negated : (s : Text) → ends_negated (negated s) ≡ true
unfolding ends_negated
ends_negated-negated [] = refl
ends_negated-negated (c ∷ []) = refl
ends_negated-negated (c ∷ d ∷ s) = ends_negated-negated (d ∷ s)

negated-inj : (s t : Text) → negated s ≡ negated t → s ≡ t
negated-inj [] [] h = refl
negated-inj (x ∷ s) (y ∷ t) h = let e = negated-inj s t (ground (arith, h)) in ground (arith, e, h)
negated-inj [] (y ∷ []) h = cc
negated-inj [] (y ∷ z ∷ t) h = cc
negated-inj (x ∷ []) [] h = cc
negated-inj (x ∷ z ∷ s) [] h = cc

-- A name that may be filtered on.
pub record IsName (name : Text) : Type 0 where
  pub filled : is_empty name ≡ false
  pub free : starts_with name (codes "~") ≡ false
  pub positive : ends_negated name ≡ false

starts_with-negated :
    (s : Text)
    → is_empty s ≡ false
    → starts_with s (codes "~") ≡ false
    → starts_with (negated s) (codes "~") ≡ false
unfolding starts_with
starts_with-negated [] h k = cc
starts_with-negated (c ∷ s) h k = k

starts_name : starts_with (codes "~name") (codes "~") ≡ true
unfolding starts_with
starts_name = refl

starts_size : starts_with (codes "~size") (codes "~") ≡ true
unfolding starts_with
starts_size = refl

-- The keys that a building of parameters may hold.
abbrev pub Key : List Text → Text → Type 0
Key claimed k =
    (k ≡ codes "~name")
    ⊎ (k ≡ codes "~size")
    ⊎ ((starts_with k (codes "~") ≡ false)
        × (((ends_negated k ≡ false) × Among k claimed)
            ⊎ ((x : Text) × (k ≡ negated x) × Among x claimed)))

Key-later : (claimed : List Text) (c k : Text) → Key claimed k → Key (c ∷ claimed) k
Key-later claimed c k h = elim h [
  | inl e ↦ inl e
  | inr r ↦ elim r [
    | inl e ↦ inr (inl e)
    | inr (f, s) ↦ elim s [
      | inl (n, a) ↦ inr (inr (f, inl (n, inr a)))
      | inr (x, e, a) ↦ inr (inr (f, inr (x, e, inr a)))
    ]
  ]
]

starts_eq : (s t : Text) → s ≡ t → starts_with s (codes "~") ≡ starts_with t (codes "~")
starts_eq s t e = ap (λ x. starts_with x (codes "~")) e

fresh_name :
    (claimed : List Text) (c k : Text)
    → IsName c
    → (Among c claimed → ⊥)
    → Key claimed k
    → (k ≢ c) × (k ≢ negated c)
fresh_name claimed c k n f h =
    let free' = starts_with-negated c n.filled n.free in
    elim h [
      | inl e ↦
          (λ g. reserved_ne k c (inl e) n.free g, λ g. reserved_ne k (negated c) (inl e) free' g)
      | inr r ↦ elim r [
        | inl e ↦
            (λ g. reserved_ne k c (inr e) n.free g, λ g. reserved_ne k (negated c) (inr e) free' g)
        | inr (t, s) ↦ elim s [
          | inl (p, a) ↦ (
            λ g. f (subst (λ x. Among x claimed) g a),
            λ g. cc (ap ends_negated g, ends_negated-negated c),
          )
          | inr (x, e, a) ↦ (
            λ g. cc (n.positive, ap ends_negated (sym g ∙ e), ends_negated-negated x),
            λ g. f (subst (λ y. Among y claimed) (negated-inj x c (sym e ∙ g)) a),
          )
        ]
      ]
    ]
  where
    reserved_ne :
        (k s : Text)
        → ((k ≡ codes "~name") ⊎ (k ≡ codes "~size"))
        → starts_with s (codes "~") ≡ false
        → k ≡ s
        → ⊥
    reserved_ne k s (inl e) h g = cc (h, starts_eq s (codes "~name") (sym g ∙ e), starts_name)
    reserved_ne k s (inr e) h g = cc (h, starts_eq s (codes "~size") (sym g ∙ e), starts_size)

-- The parameters of a building hold such keys.
abbrev pub IsHeld : Building → Type 0
IsHeld b = All (λ (k, v). Key b.claimed k) b.params

module _ (b : Building) (c value : Text) (n : IsName c) (new : Among c b.claimed → ⊥)
    (h : IsHeld b) where
  filed_lem :
      (key : Text)
      → ((k : Text) → Key b.claimed k → k ≢ key)
      → Key (c ∷ b.claimed) key
      → ((filed key value c b).params ≡ b.params ++ (key, value) ∷ [])
        × IsHeld (filed key value c b)
  filed_lem key absent k =
      let e =
        put_fresh key value b.params (
          All-map (λ (k, v). Key b.claimed k) (λ (k, v). k ≢ key) b.params (λ (k, v). absent k)
            h) in
      (
        e,
        subst (All (λ (k, v). Key (c ∷ b.claimed) k)) (sym e) (
            All-append (λ (k, v). Key (c ∷ b.claimed) k) b.params ((key, value) ∷ [])
              (All-map (λ (k, v). Key b.claimed k) (λ (k, v). Key (c ∷ b.claimed) k) b.params
                (λ (k, v). Key-later b.claimed c k) h)
              (k, tt)),
      )

  pub filed_has :
      ((filed c value c b).params ≡ b.params ++ (c, value) ∷ []) × IsHeld (filed c value c b)
  filed_has =
      filed_lem c (λ k e. (fresh_name b.claimed c k n new e).0)
        (inr (inr (n.free, inl (n.positive, inl refl))))

  pub filed-negated :
      ((filed (negated c) value c b).params ≡ b.params ++ (negated c, value) ∷ [])
      × IsHeld (filed (negated c) value c b)
  filed-negated =
      filed_lem (negated c) (λ k e. (fresh_name b.claimed c k n new e).1)
        (inr (inr (starts_with-negated c n.filled n.free, inr (c, refl, inl refl))))

text_ne : (s t : Text) → text_eq s t ≡ false → s ≢ t
text_ne s t h = λ e. cc (h, (text_eq_iff s t).1 e)

pub reserved_ne_tag :
    (claimed : List Text) (k : Text) → Key claimed k → (k ≢ codes "~tag") × (k ≢ codes "~tag!")
unfolding starts_with text_eq
reserved_ne_tag claimed k h = elim h [
  | inl e ↦ (
    λ g. text_ne (codes "~name") (codes "~tag") refl (sym e ∙ g),
    λ g. text_ne (codes "~name") (codes "~tag!") refl (sym e ∙ g),
  )
  | inr r ↦ elim r [
    | inl e ↦ (
      λ g. text_ne (codes "~size") (codes "~tag") refl (sym e ∙ g),
      λ g. text_ne (codes "~size") (codes "~tag!") refl (sym e ∙ g),
    )
    | inr (f, s) ↦ (λ g. cc (f, g), λ g. cc (f, g))
  ]
]
