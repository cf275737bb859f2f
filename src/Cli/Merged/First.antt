-- ===== src/Cli/Merged/First.antt =====
-- findHealth as the flags of `up` in cmd/tailpreview/main.go use it: the first check of a URL changes.
use tailpreview.Base.{
  ◌≡◌, refl, sym, ap, ◌∙◌, Bool, true, false, List, [], ◌∷◌, arith, Bool-cases, inl, inr,
  if◌then◌else◌,
}
use tailpreview.Base.Lists.{any}
use tailpreview.Base.Strings.{Text, text_eq, text_eq_iff}
use tailpreview.Model.{HealthCheck}
use tailpreview.Cli.Flags.{change_health}

abbrev pub unless : Bool → (HealthCheck → HealthCheck) → HealthCheck → HealthCheck
unless true f c = c
unless false f c = f c

-- The first check of each URL changed, but for the URLs that were seen before.
abbrev pub at_first : (HealthCheck → HealthCheck) → List Text → List HealthCheck → List HealthCheck
at_first f seen [] = []
at_first f seen (c ∷ cs) = unless (any (text_eq c.url) seen) f c ∷ at_first f (c.url ∷ seen) cs

abbrev pub only_at : (HealthCheck → HealthCheck) → Text → HealthCheck → HealthCheck
only_at f url c = if text_eq c.url url then f c else c

abbrev pub KeepsUrl : (HealthCheck → HealthCheck) → Type 0
KeepsUrl f = (c : HealthCheck) → (f c).url ≡ c.url

-- A URL that was seen, or is this one, was seen.
any_same : (u v : Text) (seen : List Text) → u ≡ v → any (text_eq u) seen ≡ any (text_eq v) seen
any_same u v seen e = ap (λ t. any (text_eq t) seen) e

unless_seen :
    (b d : Bool) (f : HealthCheck → HealthCheck) (url : Text) (c : HealthCheck)
    → text_eq c.url url ≡ d
    → (d ≡ true → b ≡ true)
    → unless b (only_at f url) c ≡ c
unless_seen true d f url c e k = refl
unless_seen false true f url c e k = absurd (cc (k refl))
unless_seen false false f url c e k = rw e refl

any_more :
    (url u : Text) (seen : List Text)
    → any (text_eq url) seen ≡ true
    → any (text_eq url) (u ∷ seen) ≡ true
any_more url u seen h = ground arith

at_first_seen :
    (f : HealthCheck → HealthCheck) (url : Text) (seen : List Text) (cs : List HealthCheck)
    → any (text_eq url) seen ≡ true
    → at_first (only_at f url) seen cs ≡ cs
at_first_seen f url seen [] h = refl
at_first_seen f url seen (c ∷ cs) h =
    ap (λ x. x ∷ at_first (only_at f url) (c.url ∷ seen) cs)
      (unless_seen (any (text_eq c.url) seen) _ f url c refl
        (λ e. any_same c.url url seen ((text_eq_iff c.url url).0 e) ∙ h))
    ∙ ap (◌∷◌ c) (at_first_seen f url (c.url ∷ seen) cs (any_more url c.url seen h))

pub at_first_change :
    (f : HealthCheck → HealthCheck) (url : Text) (seen : List Text) (cs : List HealthCheck)
    → any (text_eq url) seen ≡ false
    → change_health f url cs ≡ at_first (only_at f url) seen cs
unfolding change_health
at_first_change f url seen [] h = refl
at_first_change f url seen (c ∷ cs) h = elim (Bool-cases (text_eq c.url url)) [
  | inl e ↦
      let same : c.url ≡ url = (text_eq_iff c.url url).0 e in
      let new : any (text_eq c.url) seen ≡ false = any_same c.url url seen same ∙ h in
      let old : any (text_eq url) (c.url ∷ seen) ≡ true =
        ground (arith, (text_eq_iff url c.url).1 (sym same)) in
      here (text_eq c.url url) (any (text_eq c.url) seen) (only_at f url) refl e new
        (at_first_seen f url (c.url ∷ seen) cs old)
  | inr e ↦
      let still : any (text_eq url) (c.url ∷ seen) ≡ false = other (text_eq url c.url) refl e in
      later (text_eq c.url url) (any (text_eq c.url) seen) (only_at f url) refl e
        (at_first_change f url (c.url ∷ seen) cs still)
]
  where
    other :
        (d : Bool)
        → text_eq url c.url ≡ d
        → text_eq c.url url ≡ false
        → (if d then true else any (text_eq url) seen) ≡ false
    other false p q = h
    other true p q = absurd (cc (q, (text_eq_iff c.url url).1 (sym ((text_eq_iff url c.url).0 p))))

    here :
        (d b : Bool) (g : HealthCheck → HealthCheck)
        → g c ≡ (if d then f c else c)
        → d ≡ true
        → b ≡ false
        → at_first (only_at f url) (c.url ∷ seen) cs ≡ cs
        → (if d then f c ∷ cs else c ∷ change_health f url cs)
          ≡ unless b g c ∷ at_first (only_at f url) (c.url ∷ seen) cs
    here true false g p e n k = sym (ap (λ x. x ∷ cs) p) ∙ ap (◌∷◌ (g c)) (sym k)
    here true true g p e n k = absurd (cc n)
    here false b g p e n k = absurd (cc e)

    later :
        (d b : Bool) (g : HealthCheck → HealthCheck)
        → g c ≡ (if d then f c else c)
        → d ≡ false
        → change_health f url cs ≡ at_first (only_at f url) (c.url ∷ seen) cs
        → (if d then f c ∷ cs else c ∷ change_health f url cs)
          ≡ unless b g c ∷ at_first (only_at f url) (c.url ∷ seen) cs
    later true b g p e k = absurd (cc e)
    later false true g p e k = ap (◌∷◌ c) k
    later false false g p e k = sym (ap (λ x. x ∷ change_health f url cs) p) ∙ ap (◌∷◌ (g c)) k

unless_twice :
    (b : Bool) (f g : HealthCheck → HealthCheck) (c : HealthCheck)
    → unless b g (unless b f c) ≡ unless b (λ x. g (f x)) c
unless_twice true f g c = refl
unless_twice false f g c = refl

unless_url :
    (b : Bool) (f : HealthCheck → HealthCheck) (c : HealthCheck)
    → KeepsUrl f
    → (unless b f c).url ≡ c.url
unless_url true f c k = refl
unless_url false f c k = k c

pub at_first_twice :
    (f g : HealthCheck → HealthCheck) (seen : List Text) (cs : List HealthCheck)
    → KeepsUrl f
    → at_first g seen (at_first f seen cs) ≡ at_first (λ c. g (f c)) seen cs
at_first_twice f g seen [] k = refl
at_first_twice f g seen (c ∷ cs) k =
    let b : Bool = any (text_eq c.url) seen in
    let more : List HealthCheck = at_first f (c.url ∷ seen) cs in
    ap (λ u. unless (any (text_eq u) seen) g (unless b f c) ∷ at_first g (u ∷ seen) more)
      (unless_url b f c k)
    ∙ ap (λ x. x ∷ at_first g (c.url ∷ seen) more) (unless_twice b f g c)
    ∙ ap (◌∷◌ (unless b (λ x. g (f x)) c)) (at_first_twice f g (c.url ∷ seen) cs k)

unless_same :
    (b : Bool) (f g : HealthCheck → HealthCheck) (c : HealthCheck)
    → f c ≡ g c
    → unless b f c ≡ unless b g c
unless_same true f g c k = refl
unless_same false f g c k = k

pub at_first_same :
    (f g : HealthCheck → HealthCheck) (seen : List Text) (cs : List HealthCheck)
    → ((c : HealthCheck) → f c ≡ g c)
    → at_first f seen cs ≡ at_first g seen cs
at_first_same f g seen [] k = refl
at_first_same f g seen (c ∷ cs) k =
    ap (λ x. x ∷ at_first f (c.url ∷ seen) cs) (unless_same (any (text_eq c.url) seen) f g c (k c))
    ∙ ap (◌∷◌ (unless (any (text_eq c.url) seen) g c)) (at_first_same f g (c.url ∷ seen) cs k)

unless_none : (b : Bool) (c : HealthCheck) → unless b (λ x. x) c ≡ c
unless_none true c = refl
unless_none false c = refl

pub at_first_none : (seen : List Text) (cs : List HealthCheck) → at_first (λ c. c) seen cs ≡ cs
at_first_none seen [] = refl
at_first_none seen (c ∷ cs) =
    ap (λ x. x ∷ at_first (λ y. y) (c.url ∷ seen) cs) (unless_none (any (text_eq c.url) seen) c)
    ∙ ap (◌∷◌ c) (at_first_none (c.url ∷ seen) cs)

pub only_at_url :
    (f : HealthCheck → HealthCheck) (url : Text) → KeepsUrl f → KeepsUrl (only_at f url)
only_at_url f url k c = kept (text_eq c.url url)
  where
    kept : (d : Bool) → (if d then f c else c).url ≡ c.url
    kept true = k c
    kept false = refl
