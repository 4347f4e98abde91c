-- ===== src/Address/Host.antt =====
-- What `split_host` takes off a token, and which spellings switch the broadcast search off.
use epics_mcp_server.Prelude.{
  ℕ, ◌≡◌, refl, ap, ◌∙◌, ◌≢◌, ◌↔◌, ◌⊎◌, inl, inr, true, Option, none, some, [], ◌∷◌, ◌++◌, arith,
  ◌==◌, if◌then◌else◌, ==_iff, Bool-cases,
}
use epics_mcp_server.Prelude.Texts.{
  Text, codes, count_char, partition, Lacks, partition_lem, partition_first, count_char-append,
  count_char_of_Lacks,
}
use epics_mcp_server.Address.{
  Platform, pva, auto_addr_search_disabled, isdigit, host_part, ported, split_host,
}

-- The host of `[host]` with anything behind it is what stands in the brackets.
pub split_host-bracketed :
    (p : Platform) (host rest : Text)
    → Lacks b']' host
    → split_host p (b'[' ∷ host ++ b']' ∷ rest) ≡ host
unfolding split_host
split_host-bracketed p host rest h = rw (partition_first b']' host rest h)

split_host_unbracketed :
    (p : Platform) (c : ℕ) (s : Text)
    → c ≢ b'['
    → split_host p (c ∷ s)
      ≡ (if count_char b':' (c ∷ s) == 1 then ported p (c ∷ s) (partition b':' (c ∷ s)) else c ∷ s)
unfolding split_host
split_host_unbracketed p c s h = ground arith

one_colon :
    (s port : Text) → Lacks b':' s → Lacks b':' port → count_char b':' (s ++ b':' ∷ port) ≡ 1
one_colon s port h k =
    count_char-append b':' s (b':' ∷ port)
    ∙ (unfold count_char in
        omega (arith, count_char_of_Lacks b':' s h, count_char_of_Lacks b':' port k))

-- Of a host with no bracket before it and no colon in it, a colon and a port of digits, the port
-- is dropped.
pub split_host-ported :
    (p : Platform) (c : ℕ) (host port : Text)
    → c ≢ b'['
    → Lacks b':' (c ∷ host)
    → Lacks b':' port
    → isdigit p port ≡ true
    → split_host p (c ∷ host ++ b':' ∷ port) ≡ c ∷ host
split_host-ported p c host port b h k d =
    split_host_unbracketed p c (host ++ b':' ∷ port) b
    ∙ rw (one_colon (c ∷ host) port h k, partition_first b':' (c ∷ host) port h, d) refl

-- How a token stands to the host that is taken from it.
pub data Splits (p : Platform) (token host : Text) : Type 0 where
  whole : token ≡ host → Splits p token host
  bracketed : (rest : Text) → token ≡ b'[' ∷ host ++ b']' ∷ rest → Splits p token host
  ported_host :
      (port : Text) → token ≡ host ++ b':' ∷ port → isdigit p port ≡ true → Splits p token host

Splits-bracket :
    (p : Platform) (s : Text) (o : Option (Text × Text))
    → ((a r : Text) → o ≡ some (a, r) → s ≡ a ++ b']' ∷ r)
    → Splits p (b'[' ∷ s) (host_part (b'[' ∷ s) o)
Splits-bracket p s none h = whole refl
Splits-bracket p s (some (a, r)) h = bracketed r (ap (λ (t : Text). b'[' ∷ t) (h a r refl))

Splits-port :
    (p : Platform) (t : Text) (o : Option (Text × Text))
    → ((a r : Text) → o ≡ some (a, r) → t ≡ a ++ b':' ∷ r)
    → Splits p t (ported p t o)
Splits-port p t none h = whole refl
Splits-port p t (some (a, r)) h = elim (Bool-cases (isdigit p r)) [
  | inl d ↦ rw d (ported_host r (h a r refl) d)
  | inr d ↦ rw d (whole refl)
]

split_host-opened : (p : Platform) (s : Text) → Splits p (b'[' ∷ s) (split_host p (b'[' ∷ s))
unfolding split_host
split_host-opened p s =
    Splits-bracket p s (partition b']' s) (λ a r e. (partition_lem b']' s a r e).0)

-- The host is the whole token, the text of a closed bracket at its start, or what stands before a
-- colon and a port of digits: nothing else is ever taken off a token.
pub split_host-Splits : (p : Platform) (token : Text) → Splits p token (split_host p token)
split_host-Splits p [] = unfold split_host in whole refl
split_host-Splits p (c ∷ s) = elim (Bool-cases (c == b'[')) [
  | inl e ↦ rw ((==_iff c b'[').0 e) (split_host-opened p s)
  | inr e ↦
      rw (split_host_unbracketed p c s (ground arith))
        (elim (Bool-cases (count_char b':' (c ∷ s) == 1)) [
          | inl one ↦ rw one (
              Splits-port p (c ∷ s) (partition b':' (c ∷ s))
                (λ a r e. (partition_lem b':' (c ∷ s) a r e).0))
          | inr other ↦ rw other (whole refl)
        ])
]

-- For PVA exactly five spellings switch the broadcast search off: 0, and NO in any case.
pub auto_addr_search_disabled_pva_iff :
    (value : Text)
    → (auto_addr_search_disabled pva value ≡ true) ↔ (
        (value ≡ codes "0")
        ⊎ ((value ≡ codes "NO")
            ⊎ ((value ≡ codes "No") ⊎ ((value ≡ codes "nO") ⊎ (value ≡ codes "no")))))
unfolding auto_addr_search_disabled
auto_addr_search_disabled_pva_iff [] = ground arith
auto_addr_search_disabled_pva_iff (a ∷ []) = ground arith
auto_addr_search_disabled_pva_iff (a ∷ b ∷ []) = ground arith
auto_addr_search_disabled_pva_iff (a ∷ b ∷ c ∷ s) = ground arith
