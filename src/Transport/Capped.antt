-- ===== src/Transport/Capped.antt =====
-- The download with a size cap.
use epics_mcp_server.Prelude.{
  ℕ, ◌+◌, ◌≤◌, ◌≡◌, refl, sym, ap, ◌∙◌, ◌≢◌, ◌↔◌, inl, inr, Bool, true, false, not, ◌&&◌, Option,
  none, some, [], ◌++◌, arith, ltb, Bool-cases, length, length-append, iff_trans,
}
use mathlib.Core.Path.{subst}
use mathlib.Core.List.{append-nil, append_assoc}
use epics_mcp_server.Prelude.Texts.{Text}
use epics_mcp_server.Errors.{Result, ok, err}
use epics_mcp_server.Throttle.{ReadThrottle, check}
use epics_mcp_server.Transport.Steps.{returned_iff, bind_iff}
use epics_mcp_server.Transport.{
  ErrorClass, connection_error, ssl_error, retry_error, invalid_error, request_error,
  RequestException, Stream, ended, broken, chunk, Response, Answer, responded, failed, returned,
  over_cap, refuse_if, by_class, translated, is_error_status, raise_for_status, throttled_first,
  read_capped, Headers, check_declared, read_body_capped, filename_from_content_disposition,
  Download, downloaded, bytes_of, rest_get_bytes,
}

abbrev prepended : Text → Option Text → Option Text
prepended c none = none
prepended c (some rest) = some (c ++ rest)

-- All that the stream yields, if it ends.
abbrev pub whole : Stream → Option Text
whole ended = some []
whole (broken e) = none
whole (chunk c s) = prepended c (whole s)

by_class-ne-returned :
    {A : Type 0} (k : ErrorClass) (e : RequestException) (a : A) → by_class k e ≢ returned a
by_class-ne-returned connection_error e a = λ h. cc
by_class-ne-returned ssl_error e a = λ h. cc
by_class-ne-returned retry_error e a = λ h. cc
by_class-ne-returned invalid_error e a = λ h. cc
by_class-ne-returned request_error e a = λ h. cc

pub translated-ne-returned : {A : Type 0} (e : RequestException) (a : A) → translated e ≢ returned a
unfolding translated
translated-ne-returned e a = by_class-ne-returned e.class e a

abbrev Rest : ℕ → Text → Option Text → Text → Type 0
Rest cap content s b = (rest : Text) × (s ≡ some rest) × (b ≡ content ++ rest) × (length b ≤ cap)

Rest-length :
    (cap : ℕ) (content : Text) (s : Option Text) (b : Text)
    → Rest cap content s b
    → length content ≤ cap
Rest-length cap content s b (r, e, f, g) = omega (arith, length-append content r, ap length f)

some_inj : {a b : Text} → some a ≡ some b → a ≡ b
some_inj h = cc

regrouped : (content c t r : Text) → c ++ t ≡ r → content ++ r ≡ (content ++ c) ++ t
regrouped content c t r e = rw (← e) (sym (append_assoc content c t))

Rest-chunk :
    (cap : ℕ) (content c : Text) (s : Option Text) (b : Text)
    → Rest cap (content ++ c) s b ↔ Rest cap content (prepended c s) b
Rest-chunk cap content c none b = (λ h. let (r, e, f, g) = h in cc, λ h. let (r, e, f, g) = h in cc)
Rest-chunk cap content c (some t) b = (
  λ h. let (r, e, f, g) = h in (c ++ r, ground arith, f ∙ append_assoc content c r, g),
  λ h. let (r, e, f, g) = h in (t, refl, f ∙ regrouped content c t r (some_inj e), g),
)

read_capped_iff :
    (cap : ℕ) (content : Text) (s : Stream) (b : Text)
    → length content ≤ cap
    → (read_capped cap (length content) content s ≡ returned b) ↔ Rest cap content (whole s) b
unfolding read_capped
read_capped_iff cap content ended b h = (
  λ e.
      let k = returned_iff.0 e in
      ([], refl, sym k ∙ sym (append-nil content), subst (λ x. length x ≤ cap) k h),
  λ e.
      let (r, f, g, k) = e in
      ap returned (sym (g ∙ ap (λ x. content ++ x) (sym (some_inj f)) ∙ append-nil content)),
)
read_capped_iff cap content (broken e) b h =
    (λ k. absurd (translated-ne-returned e b k), λ k. let (r, f, g, l) = k in cc)
read_capped_iff cap content (chunk c s) b h =
    elim (Bool-cases (ltb cap (length content + length c))) [
      | inl over ↦ rw over (
        λ k. cc,
        λ k. absurd (
            too_long
              (Rest-length cap (content ++ c) (whole s) b
                ((Rest-chunk cap content c (whole s) b).1 k))
              over),
      )
      | inr fits ↦
          rw (fits, ← length-append content c)
            (iff_trans (read_capped_iff cap (content ++ c) s b (fitting fits))
              (Rest-chunk cap content c (whole s) b))
    ]
  where
    too_long : length (content ++ c) ≤ cap → ltb cap (length content + length c) ≡ true → ⊥
    too_long k over = ground (arith, length-append content c)

    fitting : ltb cap (length content + length c) ≡ false → length (content ++ c) ≤ cap
    fitting fits = ground (arith, length-append content c)

-- A declared length is a number within the cap, as far as it is made of digits.
abbrev IsDeclared : Headers → ℕ → Option Text → Type 0
IsDeclared h cap none = Unit {0}
IsDeclared h cap (some declared) =
    h.isdigit declared ≡ true → (n : ℕ) × (h.int_of declared ≡ some n) × (n ≤ cap)

pub refuse_if_iff : (b : Bool) → (refuse_if b ≡ returned tt) ↔ (b ≡ false)
refuse_if_iff true = (λ k. cc, λ k. cc)
refuse_if_iff false = (λ k. refl, λ k. refl)

over_cap_iff :
    (cap : ℕ) (o : Option ℕ) → (over_cap cap o ≡ returned tt) ↔ ((n : ℕ) × (o ≡ some n) × (n ≤ cap))
over_cap_iff cap none = (λ k. cc, λ k. let (n, e, l) = k in cc)
over_cap_iff cap (some n) =
    let r = refuse_if_iff (ltb cap n) in
    (λ k. let f = r.0 k in (n, refl, ground arith), λ k. let (m, e, l) = k in r.1 (ground arith))

check_declared_iff :
    (h : Headers) (cap : ℕ) (declared : Option Text)
    → (check_declared h cap declared ≡ returned tt) ↔ IsDeclared h cap declared
check_declared_iff h cap none = (λ k. tt, λ k. refl)
check_declared_iff h cap (some declared) =
    let o = over_cap_iff cap (h.int_of declared) in
    elim (Bool-cases (h.isdigit declared)) [
      | inl e ↦ rw e (λ k d. o.0 k, λ k. o.1 (k refl))
      | inr e ↦ rw e (λ k d. cc, λ k. refl)
    ]

pub raise_for_status_iff :
    (r : Response) → (raise_for_status r ≡ returned tt) ↔ (is_error_status r.status_code ≡ false)
raise_for_status_iff r = elim (Bool-cases (is_error_status r.status_code)) [
  | inl e ↦ rw e (λ k. cc, λ k. cc)
  | inr e ↦ rw e (λ k. refl, λ k. refl)
]

responded_inj : {r s : Response} → responded r ≡ responded s → r ≡ s
responded_inj h = cc

module _ (h : Headers) (allow_redirects : Bool) (cap : ℕ) where
  -- A response and what is made of it.
  pub record IsDownload (r : Response) (d : Download) : Type 0 where
    pub direct : not allow_redirects && r.is_redirect ≡ false
    pub served : is_error_status r.status_code ≡ false
    pub declared : IsDeclared h cap r.content_length
    pub complete : whole r.body ≡ some d.content
    pub within : length d.content ≤ cap
    pub filename : d.filename ≡ filename_from_content_disposition h r.content_disposition
    pub content_type : d.content_type ≡ r.content_type

  body_iff :
      (r : Response) (b : Text)
      → (read_body_capped h r (some cap) ≡ returned b)
        ↔ (IsDeclared h cap r.content_length × Rest cap [] (whole r.body) b)
  unfolding read_body_capped
  body_iff r b =
      let c = check_declared_iff h cap r.content_length in
      let w =
        bind_iff (check_declared h cap r.content_length) (λ u. read_capped cap 0 [] r.body) b in
      let s = read_capped_iff cap [] r.body b (omega arith) in
      (λ k. let (u, e, f) = w.0 k in (c.0 e, s.0 f), λ k. let (d, t) = k in w.1 (tt, c.1 d, s.1 t))

  download_iff :
      (r : Response) (d : Download)
      → (bytes_of h allow_redirects (some cap) (responded r) ≡ returned d) ↔ IsDownload r d
  download_iff r d =
      let f = refuse_if_iff (not allow_redirects && r.is_redirect) in
      let u = raise_for_status_iff r in
      let w1 = bind_iff (refuse_if (not allow_redirects && r.is_redirect)) _ d in
      let w2 = bind_iff (raise_for_status r) _ d in
      let w3 = bind_iff (read_body_capped h r (some cap)) (λ b. returned (downloaded h r b)) d in
      (
        λ k.
            let (t, e1, k1) = w1.0 k in
            let (t', e2, k2) = w2.0 k1 in
            let (b, e3, k3) = w3.0 k2 in
            let (decl, (rest, e, g, l)) = (body_iff r b).0 e3 in
            subst (IsDownload r) (returned_iff.0 k3) (record {
              direct = f.0 e1;
              served = u.0 e2;
              declared = decl;
              complete = e ∙ ap some (sym g);
              within = l;
              filename = refl;
              content_type = refl;
            }),
        λ k.
            let last =
              (body_iff r d.content).1 (k.declared, (d.content, k.complete, refl, k.within)) in
            w1.1 (
              tt,
              f.1 k.direct,
              w2.1 (tt, u.1 k.served, w3.1 (d.content, last, ap returned (ground arith))),
            ),
      )

  -- A download with a cap returns exactly if the throttle admits it and a response came, from no
  -- redirect unless one may be followed, with no error status, with a declared length, where it is made
  -- of digits, that is a number within the cap, and a body that ends within the cap. The content is
  -- that whole body.
  pub rest_get_bytes_iff :
      (t : ReadThrottle) (now : ℕ) (answer : Answer) (d : Download)
      → ((rest_get_bytes h t now allow_redirects (some cap) answer).0 ≡ returned d)
        ↔ (((check t now).0 ≡ ok tt) × ((r : Response) × (answer ≡ responded r) × IsDownload r d))
  unfolding rest_get_bytes
  rest_get_bytes_iff t now answer d = by_check (check t now).0 answer
    where
      by_check :
          (c : Result (Unit {0})) (a : Answer)
          → (throttled_first c (bytes_of h allow_redirects (some cap) a) ≡ returned d)
            ↔ ((c ≡ ok tt) × ((r : Response) × (a ≡ responded r) × IsDownload r d))
      by_check (err e) a = (λ k. cc, λ k. let (f, r) = k in cc)
      by_check (ok u) (responded r) = (
        λ k. (refl, (r, refl, (download_iff r d).0 k)),
        λ k.
            let (f, (r', e, p)) = k in
            (download_iff r d).1 (subst (λ x. IsDownload x d) (sym (responded_inj e)) p),
      )
      by_check (ok u) (failed e) =
          (λ k. absurd (translated-ne-returned e d k), λ k. let (f, (r, g, p)) = k in cc)
