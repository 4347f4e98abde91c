-- ===== src/LogListing/Page.antt =====
-- What a page of a search holds.
use epics_mcp_server.Prelude.{
  ℕ, zero, suc, ◌≤◌, ◌<◌, ◌≡◌, refl, sym, ap, ◌∙◌, ◌≢◌, ◌↔◌, true, false, Option, List, [], ◌∷◌,
  ◌++◌, map, arith, ltb, length,
}
use epics_mcp_server.Prelude.Int.{ℤ}
use mathlib.Core.Path.{subst}
use epics_mcp_server.Faults.{Attempt, raised, returned, ◌>>=◌}
use epics_mcp_server.Attach.{take}
use epics_mcp_server.Json.{Json, Items, no_items, item, Fields}
use epics_mcp_server.Entry.{Strings, require_entry, expand_log_entry}
use epics_mcp_server.LogListing.{
  entries_of, hit_count, require_each, item_length, SearchPage, search_page,
}

returned_inj {ℓ} : {A : Type ℓ} {a b : A} → returned a ≡ returned b → a ≡ b
returned_inj h = cc

>>=-eq-returned {a b} :
    {A : Type a} {B : Type b} (first : Attempt A) (rest : A → Attempt B) {end : B}
    → (first >>= rest) ≡ returned end
    → (value : A) × (first ≡ returned value) × (rest value ≡ returned end)
>>=-eq-returned (raised f) rest h = cc
>>=-eq-returned (returned value) rest h = (value, refl, h)

-- The entries are those of the items, each of them read, in their order.
abbrev pub Reads : Items → List Fields → Type 0
Reads no_items [] = Unit {0}
Reads (item j js) (e ∷ es) = (require_entry j ≡ returned e) × Reads js es
Reads _ _ = ⊥

require_each-Reads : (js : Items) (es : List Fields) → require_each js ≡ returned es → Reads js es
unfolding require_each
require_each-Reads no_items [] h = tt
require_each-Reads no_items (e ∷ es) h = cc
require_each-Reads (item j js) es h =
    let (e, h1, k) = >>=-eq-returned (require_entry j) _ h in
    let (rest, h2, m) = >>=-eq-returned (require_each js) _ k in
    subst (Reads (item j js)) {x = e ∷ rest} (returned_inj m) (h1, require_each-Reads js rest h2)

Reads-length : (js : Items) (es : List Fields) → Reads js es → length es ≡ item_length js
Reads-length no_items [] h = refl
Reads-length no_items (e ∷ es) h = absurd h
Reads-length (item j js) [] h = absurd h
Reads-length (item j js) (e ∷ es) h = ap suc (Reads-length js es h.1)

take_all {ℓ} : {A : Type ℓ} (n : ℕ) (xs : List A) → length xs ≤ n → take n xs ≡ xs
take_all zero [] h = refl
take_all zero (x ∷ xs) h = absurd (omega (arith, h))
take_all (suc n) [] h = refl
take_all (suc n) (x ∷ xs) h = ap (λ ys. x ∷ ys) (take_all n xs (omega (arith, h)))

take_first {ℓ} :
    {A : Type ℓ} (n : ℕ) (xs : List A)
    → n < length xs
    → (rest : List A) × (xs ≡ take n xs ++ rest) × (rest ≢ []) × (length (take n xs) ≡ n)
take_first zero [] h = absurd (omega (arith, h))
take_first zero (x ∷ xs) h = (x ∷ xs, refl, λ e. cc, refl)
take_first (suc n) [] h = absurd (omega (arith, h))
take_first (suc n) (x ∷ xs) h =
    let (rest, e, m, k) = take_first n xs (omega (arith, h)) in
    (rest, ap (λ ys. x ∷ ys) e, m, ap suc k)

>>=-returned {a b} :
    {A : Type a} {B : Type b} (first : Attempt A) (rest : A → Attempt B) {value : A} {end : B}
    → first ≡ returned value
    → rest value ≡ returned end
    → (first >>= rest) ≡ returned end
>>=-returned first rest h k = ap (λ x. x >>= rest) h ∙ k

require_each_returned :
    (js : Items) (es : List Fields) → Reads js es → require_each js ≡ returned es
unfolding require_each
require_each_returned no_items [] h = refl
require_each_returned no_items (e ∷ es) h = absurd h
require_each_returned (item j js) [] h = absurd h
require_each_returned (item j js) (e ∷ es) h =
    >>=-returned (require_entry j) _ h.0
      (>>=-returned (require_each js) _ (require_each_returned js es h.1) refl)

-- The payload is readable, with these entries and this count.
abbrev pub Readable : Json → Items → List Fields → Option ℤ → Type 0
Readable payload js es total =
    (entries_of payload ≡ returned js) × Reads js es × (hit_count payload ≡ returned total)

-- A page shows all of the entries, in their order, or says that there are more and shows the first.
pub record IsCut (py : Strings) (size : ℕ) (es : List Fields) (page : SearchPage) : Type 0 where
  pub all_shown : page.capped ≡ false → page.entries ≡ map (expand_log_entry py) es
  pub first_shown :
      page.capped ≡ true
      → (first rest : List Fields) × (es ≡ first ++ rest)
        × (rest ≢ [])
        × (length first ≡ size)
        × (page.entries ≡ map (expand_log_entry py) first)

take_first-IsCut :
    (py : Strings) (size : ℕ) (js : Items) (es : List Fields) (total : Option ℤ) (page : SearchPage)
    → Reads js es
    → record {
      entries = map (expand_log_entry py) (take size es);
      capped = ltb size (item_length js);
      total_matches = total;
    }
      ≡ page
    → IsCut py size es page
take_first-IsCut py size js es total page reads made =
    let n = Reads-length js es reads in
    let shown = sym (ap (λ (x : SearchPage). x.entries) made) in
    let says = ap (λ (x : SearchPage). x.capped) made in
    record {
      all_shown = λ e.
          shown
          ∙ ap (λ xs. map (expand_log_entry py) xs) (take_all size es (ground (arith, n, says, e)));
      first_shown = λ e.
          let (rest, k, m, l) = take_first size es (ground (arith, n, says, e)) in
          (take size es, rest, k, m, l, shown);
    }

-- What a search answers, and when it does.
pub record IsResponse (py : Strings) (size : ℕ) (payload : Json) : Type 0 where
  pub answers :
      ((page : SearchPage) × (search_page py size payload ≡ returned page))
      ↔ ((js : Items) × (es : List Fields) × (total : Option ℤ) × Readable payload js es total)
  pub complete :
      (page : SearchPage)
      → search_page py size payload ≡ returned page
      → (js : Items) × (es : List Fields) × Readable payload js es page.total_matches
        × IsCut py size es page

search_page_read :
    (py : Strings) (size : ℕ) (payload : Json) (page : SearchPage)
    → search_page py size payload ≡ returned page
    → (js : Items) × (es : List Fields) × Readable payload js es page.total_matches
      × IsCut py size es page
unfolding search_page
search_page_read py size payload page h =
    let (js, found, h1) = >>=-eq-returned (entries_of payload) _ h in
    let (total, counted, h2) = >>=-eq-returned (hit_count payload) _ h1 in
    let (es, read, h3) = >>=-eq-returned (require_each js) _ h2 in
    let reads = require_each-Reads js es read in
    let made = returned_inj h3 in
    (
      js,
      es,
      (found, reads, counted ∙ ap (λ (x : SearchPage). returned x.total_matches) made),
      take_first-IsCut py size js es total page reads made,
    )

-- A search answers exactly if the payload has a list of entries, all of them readable, and a readable
-- count. Then it shows all of them, in their order, or it says that there are more and shows the first
-- of them, as many as were asked for.
pub search_page-IsResponse : (py : Strings) (size : ℕ) (payload : Json) → IsResponse py size payload
unfolding search_page
search_page-IsResponse py size payload = record {
  answers = (
    λ h.
        let (js, es, r, p) = search_page_read py size payload h.0 h.1 in
        (js, es, h.0.total_matches, r),
    λ h.
        let (js, es, total, r) = h in
        let (found, reads, counted) = r in
        (
          record {
            entries = map (expand_log_entry py) (take size es);
            capped = ltb size (item_length js);
            total_matches = total;
          },
          >>=-returned (entries_of payload) _ found (
              >>=-returned (hit_count payload) _ counted
                (>>=-returned (require_each js) _ (require_each_returned js es reads) refl)),
        ),
  );
  complete = search_page_read py size payload;
}
