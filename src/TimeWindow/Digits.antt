-- ===== src/TimeWindow/Digits.antt =====
-- The texts of numbers of a fixed width, as TimeWindow writes them: their order is the order of the
-- numbers.
use Prim.Native.Nat.{◌/◌, ◌%◌}
use epics_mcp_server.Prelude.{
  ℕ, zero, suc, ◌+◌, ◌≤◌, ◌<◌, ◌≡◌, refl, sym, ap, ◌∙◌, ◌↔◌, ◌⊎◌, inl, inr, true, false, [], ◌∷◌,
  ◌++◌, arith, ltb, Bool-cases, length, length-append, iff_trans,
}
use epics_mcp_server.Prelude.Texts.{Text}
use epics_mcp_server.Prelude.Sorted.{text_lt}
use epics_mcp_server.TimeWindow.{digits}

-- A number that `w` digits can hold.
abbrev pub IsFitting : ℕ → ℕ → Type 0
IsFitting zero n = n ≡ 0
IsFitting (suc w) n = IsFitting w (n / 10)

length-digits : (w n : ℕ) → length (digits w n) ≡ w
unfolding digits
length-digits zero n = refl
length-digits (suc w) n =
    rw (length-append (digits w (n / 10)) ((48 + n % 10) ∷ []))
      (omega (arith, length-digits w (n / 10)))

-- Texts of one length are compared by their first parts, and then by what follows.
text_lt-append :
    (a b c d : Text)
    → length a ≡ length b
    → (text_lt (a ++ c) (b ++ d) ≡ true) ↔ ((text_lt a b ≡ true) ⊎ ((a ≡ b) × (text_lt c d ≡ true)))
unfolding text_lt
text_lt-append [] [] c d h = ground arith
text_lt-append (x ∷ a) (y ∷ b) c d h = ground (arith, text_lt-append a b c d (omega arith))
text_lt-append [] (y ∷ b) c d h = cc
text_lt-append (x ∷ a) [] c d h = cc

snoc-inj :
    (a b : Text) (x y : ℕ) → length a ≡ length b → a ++ x ∷ [] ≡ b ++ y ∷ [] → (a ≡ b) × (x ≡ y)
snoc-inj [] [] x y l h = ground arith
snoc-inj (c ∷ a) (d ∷ b) x y l h =
    let (e, k) = snoc-inj a b x y (omega arith) (ground arith) in ground arith
snoc-inj [] (d ∷ b) x y l h = cc
snoc-inj (c ∷ a) [] x y l h = cc

same_width : (w n m : ℕ) → length (digits w n) ≡ length (digits w m)
same_width w n m = length-digits w n ∙ sym (length-digits w m)

digits-inj : (w n m : ℕ) → IsFitting w n → IsFitting w m → digits w n ≡ digits w m → n ≡ m
unfolding digits
digits-inj zero n m f g h = omega arith
digits-inj (suc w) n m f g h =
    let (e, k) =
      snoc-inj (digits w (n / 10)) (digits w (m / 10)) (48 + n % 10) (48 + m % 10)
        (same_width w (n / 10) (m / 10)) h in
    let q = digits-inj w (n / 10) (m / 10) f g e in omega (arith, q, k)

pub text_lt-digits :
    (w n m : ℕ)
    → IsFitting w n
    → IsFitting w m
    → (text_lt (digits w n) (digits w m) ≡ true) ↔ (n < m)
unfolding digits text_lt
text_lt-digits zero n m f g = ground arith
text_lt-digits (suc w) n m f g =
    let front =
      text_lt-append (digits w (n / 10)) (digits w (m / 10)) ((48 + n % 10) ∷ [])
        ((48 + m % 10) ∷ []) (same_width w (n / 10) (m / 10)) in
    let ih = text_lt-digits w (n / 10) (m / 10) f g in
    (
      λ h. elim (front.0 h) [
        | inl a ↦ let q = ih.0 a in omega arith
        | inr (e, l) ↦
            let q = digits-inj w (n / 10) (m / 10) f g e in
            let r = last_lt (48 + n % 10) (48 + m % 10) l in omega arith
      ],
      λ h. front.1 (by_tens (compare_tens n m h) ih),
    )
  where
    lt_last : (x y : ℕ) → x < y → text_lt (x ∷ []) (y ∷ []) ≡ true
    lt_last x y h = ground arith

    last_lt : (x y : ℕ) → text_lt (x ∷ []) (y ∷ []) ≡ true → x < y
    last_lt x y h = ground arith

    not_below : (x y : ℕ) → ltb x y ≡ false → y ≤ x
    not_below x y h = ground arith

    compare_tens : (n m : ℕ) → n < m → (n / 10 < m / 10) ⊎ ((n / 10 ≡ m / 10) × (n % 10 < m % 10))
    compare_tens n m h = elim (Bool-cases (ltb (n / 10) (m / 10))) [
      | inl a ↦ inl (ground arith)
      | inr a ↦ let q = not_below (n / 10) (m / 10) a in inr (omega arith, omega arith)
    ]

    by_tens :
        ((n / 10 < m / 10) ⊎ ((n / 10 ≡ m / 10) × (n % 10 < m % 10)))
        → ((text_lt (digits w (n / 10)) (digits w (m / 10)) ≡ true) ↔ (n / 10 < m / 10))
        → (text_lt (digits w (n / 10)) (digits w (m / 10)) ≡ true)
          ⊎ ((digits w (n / 10) ≡ digits w (m / 10))
              × (text_lt ((48 + n % 10) ∷ []) ((48 + m % 10) ∷ []) ≡ true))
    by_tens (inl a) ih = inl (ih.1 a)
    by_tens (inr (e, l)) ih =
        inr (ap (digits w) e, lt_last (48 + n % 10) (48 + m % 10) (omega arith))

-- One field in front of the others.
pub field_first :
    (w separator n m : ℕ) (c d : Text)
    → IsFitting w n
    → IsFitting w m
    → (text_lt (digits w n ++ separator ∷ c) (digits w m ++ separator ∷ d) ≡ true)
      ↔ ((n < m) ⊎ ((n ≡ m) × (text_lt c d ≡ true)))
unfolding text_lt
field_first w separator n m c d f g =
    let front =
      text_lt-append (digits w n) (digits w m) (separator ∷ c) (separator ∷ d) (same_width w n m) in
    let order = text_lt-digits w n m f g in
    (
      λ h. elim (front.0 h) [
        | inl a ↦ inl (order.0 a)
        | inr (e, l) ↦ inr (digits-inj w n m f g e, ground (arith, l))
      ],
      λ h. elim h [
        | inl a ↦ front.1 (inl (order.1 a))
        | inr (e, l) ↦ front.1 (inr (ap (digits w) e, ground (arith, l)))
      ],
    )

-- Two fields in order: the first decides, and behind equal ones what follows.
abbrev pub OrLater : ℕ → ℕ → Type 0 → Type 0
OrLater n m Later = (n < m) ⊎ ((n ≡ m) × Later)

pub then_later : (n m : ℕ) (P Q : Type 0) → P ↔ Q → OrLater n m P ↔ OrLater n m Q
then_later n m P Q e = (
  λ h. elim h [ inl a ↦ inl a | inr (k, p) ↦ inr (k, e.0 p) ],
  λ h. elim h [ inl a ↦ inl a | inr (k, q) ↦ inr (k, e.1 q) ],
)

-- A field of two digits, in front of what orders the rest.
pub two_first :
    (separator n m : ℕ) (c d : Text) (Later : Type 0)
    → n < 100
    → m < 100
    → (text_lt c d ≡ true) ↔ Later
    → (text_lt (digits 2 n ++ separator ∷ c) (digits 2 m ++ separator ∷ d) ≡ true)
      ↔ OrLater n m Later
two_first separator n m c d Later p q later =
    iff_trans (field_first 2 separator n m c d (omega (arith, p)) (omega (arith, q)))
      (then_later n m _ _ later)
