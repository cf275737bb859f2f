-- ===== src/Verification/Origin/Meaning.antt =====
-- What an origin is, apart from how sameOrigin and effectivePort of internal/app/verification.go find
-- it: the port that a URL writes, or the standard one of its scheme, and a host without its final dot.
use tailpreview.Base.{
  ◌≡◌, ◌≢◌, ◌⊎◌, ◌↔◌, inl, inr, refl, sym, ap, ◌∙◌, true, false, [], ◌∷◌, ◌++◌, map, arith,
  Bool-cases,
}
use tailpreview.Base.Fold.{fold_rune}
use tailpreview.Base.Strings.{Text, codes, text_eq, text_eq_iff, trim_suffix}
use tailpreview.Url.{Url, hostname, port}
use tailpreview.Verification.Origin.{
  or_standard, effective_port, bare_host, same_origin, same_origin-origin,
}

-- The port: the one that the URL writes, or 443 for https and 80 for any other scheme.
abbrev pub HasPort : Url → Text → Type 0
HasPort u p =
    ((port u ≢ []) × (p ≡ port u))
    ⊎ ((port u ≡ []) × (u.scheme ≡ codes "https") × (p ≡ codes "443"))
    ⊎ ((port u ≡ []) × (u.scheme ≢ codes "https") × (p ≡ codes "80"))

-- The host without its final dot, if it ends with one.
abbrev pub HasBareHost : Text → Text → Type 0
HasBareHost name bare =
    (name ≡ bare ++ codes ".") ⊎ ((name ≡ bare) × ((s : Text) → name ≢ s ++ codes "."))

pub record AreSame (u v : Url) : Type 0 where
  pub schemes : map fold_rune u.scheme ≡ map fold_rune v.scheme
  pub left_host : Text
  pub right_host : Text
  pub left : HasBareHost (hostname u) left_host
  pub right : HasBareHost (hostname v) right_host
  pub hosts : map fold_rune left_host ≡ map fold_rune right_host
  pub common_port : Text
  pub left_port : HasPort u common_port
  pub right_port : HasPort v common_port

module _ (scheme p : Text) where
  abbrev HasPortOf : Text → Type 0
  HasPortOf q =
      ((q ≢ []) × (p ≡ q))
      ⊎ ((q ≡ []) × (scheme ≡ codes "https") × (p ≡ codes "443"))
      ⊎ ((q ≡ []) × (scheme ≢ codes "https") × (p ≡ codes "80"))

  or_standard-HasPort : (q : Text) → (p ≡ or_standard scheme q) → HasPortOf q
  or_standard-HasPort [] h = elim (Bool-cases (text_eq scheme (codes "https"))) [
    | inl e ↦ inr (inl (refl, (text_eq_iff _ _).0 e, ground arith))
    | inr e ↦
        inr (inr (refl, (λ k. cc (e, (text_eq_iff scheme (codes "https")).1 k)), ground arith))
  ]
  or_standard-HasPort (c ∷ q) h = inl ((λ k. cc k), h)

  HasPort-or_standard : (q : Text) → HasPortOf q → (p ≡ or_standard scheme q)
  HasPort-or_standard [] (inl (f, e)) = absurd (f refl)
  HasPort-or_standard [] (inr (inl (a, b, c))) = rw ((text_eq_iff _ _).1 b) c
  HasPort-or_standard [] (inr (inr (a, b, c))) =
      elim (Bool-cases (text_eq scheme (codes "https"))) [
        | inl e ↦ absurd (b ((text_eq_iff _ _).0 e))
        | inr e ↦ rw e c
      ]
  HasPort-or_standard (c ∷ q) (inl (f, e)) = e
  HasPort-or_standard (c ∷ q) (inr (inl (a, b, d))) = absurd (cc a)
  HasPort-or_standard (c ∷ q) (inr (inr (a, b, d))) = absurd (cc a)

trim_dot : (s : Text) → HasBareHost s (trim_suffix s (codes "."))
unfolding trim_suffix
trim_dot [] = inr (refl, no_end)
  where
    no_end : (s : Text) → [] ≢ s ++ codes "."
    no_end [] k = cc k
    no_end (c ∷ s) k = cc k
trim_dot (a ∷ t) = elim (Bool-cases (text_eq (a ∷ t) (codes "."))) [
  | inl e ↦ rw e (inl ((text_eq_iff (a ∷ t) (codes ".")).0 e))
  | inr e ↦ rw e (longer e (trim_dot t))
]
  where
    no_end :
        text_eq (a ∷ t) (codes ".") ≡ false
        → ((s : Text) → t ≢ s ++ codes ".")
        → (s : Text) → a ∷ t ≢ s ++ codes "."
    no_end e f [] k = cc (e, (text_eq_iff (a ∷ t) (codes ".")).1 k)
    no_end e f (b ∷ s) k = f s (ground arith)

    longer :
        text_eq (a ∷ t) (codes ".") ≡ false
        → HasBareHost t (trim_suffix t (codes "."))
        → HasBareHost (a ∷ t) (a ∷ trim_suffix t (codes "."))
    longer e (inl k) = inl (ap (◌∷◌ a) k)
    longer e (inr (k, f)) = inr (ap (◌∷◌ a) k, no_end e f)

append_dot : (s t : Text) → s ++ codes "." ≡ t ++ codes "." → s ≡ t
append_dot [] [] h = refl
append_dot [] (b ∷ []) h = absurd (cc h)
append_dot [] (b ∷ c ∷ t) h = absurd (cc h)
append_dot (a ∷ []) [] h = absurd (cc h)
append_dot (a ∷ b ∷ s) [] h = absurd (cc h)
append_dot (a ∷ s) (b ∷ t) h = ground (arith, append_dot s t)

bare_unique : (name a b : Text) → HasBareHost name a → HasBareHost name b → a ≡ b
bare_unique name a b (inl e) (inl k) = append_dot a b (sym e ∙ k)
bare_unique name a b (inl e) (inr (k, f)) = absurd (f a e)
bare_unique name a b (inr (e, f)) (inl k) = absurd (f b k)
bare_unique name a b (inr (e, f)) (inr (k, g)) = sym e ∙ k

-- sameOrigin holds exactly when, after Unicode's case folding, the schemes are equal and the hosts
-- without their final dots are equal, and the URLs have one port: the one that is written, or 443 for
-- https and 80 for any other scheme.
pub same_origin_iff-AreSame : (u v : Url) → (same_origin u v ≡ true) ↔ AreSame u v
unfolding effective_port
same_origin_iff-AreSame u v = (
  λ h.
      let e = (same_origin-origin u v).0 h in
      record {
        schemes = ap (λ o. o.0) e;
        left_host = bare_host u;
        right_host = bare_host v;
        left = trim_dot (hostname u);
        right = trim_dot (hostname v);
        hosts = ap (λ o. o.1) e;
        common_port = effective_port u;
        left_port = or_standard-HasPort u.scheme (effective_port u) (port u) refl;
        right_port = or_standard-HasPort v.scheme (effective_port u) (port v) (ap (λ o. o.2) e);
      },
  λ h.
      let a = bare_unique _ _ _ h.left (trim_dot (hostname u)) in
      let b = bare_unique _ _ _ h.right (trim_dot (hostname v)) in
      let c = HasPort-or_standard u.scheme h.common_port (port u) h.left_port in
      let d = HasPort-or_standard v.scheme h.common_port (port v) h.right_port in
      let hosts : map fold_rune (bare_host u) ≡ map fold_rune (bare_host v) =
        sym (ap (map fold_rune) a) ∙ h.hosts ∙ ap (map fold_rune) b in
      let schemes = h.schemes in
      let ports : effective_port u ≡ effective_port v = sym c ∙ d in
      (same_origin-origin u v).1 (cc (schemes, hosts, ports)),
)
