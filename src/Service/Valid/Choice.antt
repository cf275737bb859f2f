-- ===== src/Service/Valid/Choice.antt =====
-- What choosePort promises, on each of its three ways to a port.
use tailpreview.Base.{
  ℕ, ◌≡◌, ◌≢◌, refl, subst, Bool, true, false, Option, none, some, List, [], ◌∷◌, ◌++◌, arith, ◌==◌,
  ==_refl, if◌then◌else◌,
}
use tailpreview.Base.Lists.{All, any, All-filter, All-map}
use tailpreview.Base.Strings.{Text, text_eq, text_eq_iff}
use tailpreview.Base.Outcome.{Outcome, ok}
use tailpreview.Model.{Preview, Registry}
use tailpreview.Errors.{Error, port_owned}
use tailpreview.Host.{Service, World}
use tailpreview.Host.Monad.{M, pure, fail, lift, ◌>>=◌}
use tailpreview.Host.Calls.{port_available, ask, active_requests}
use tailpreview.Service.Select.{Found, find_by, has_id, index_by_id, without_id, by_use}
use tailpreview.Service.Port.{
  Choice, uses_port, gateway_for, first_free, probe, skip, eviction_candidates, evict, ports_of,
  victim_of, keep_port, or_evict, allocate, choice_of, choose_port,
}
use tailpreview.Service.Up.{without_evicted, moved_eviction}
use tailpreview.Service.Valid.{Unique, InPool, Placed, IsValid}
use tailpreview.Service.Valid.Lists.{Splits, find_by-Splits, All-middle, All-sort_by}
use tailpreview.Service.Valid.Ports.{
  Gives, Gives-bind, Gives-then, Owns, Unique-Owns, All-without_id, any-false, candidates-InPool,
}

-- The port is in the pool with its gateway, of the previews that stay none has it, and an evicted
-- preview had this port.
pub record Chosen (s : Service) (ps : List Preview) (id : Text) (c : Choice) : Type 0 where
  pub in_pool : InPool s c.port
  pub gateway_matches : c.gateway ≡ gateway_for s c.port
  pub nobody_has_it :
      All (λ q. q.external_port ≢ c.port) (without_evicted (without_id ps id) c.evicted)
  pub same_port : moved_eviction c ≡ none

abbrev Passes : (Preview → Bool) → Option Found → Type 0
Passes t none = Unit
Passes t (some f) = t f.preview ≡ true

pub find_by-Passes : (t : Preview → Bool) (ps : List Preview) → Passes t (find_by t ps)
unfolding find_by
find_by-Passes t [] = tt
find_by-Passes t (p ∷ ps) = ground (arith, find_by-Passes t ps)

module _ {A : Type 0} (P : A → Type 0) where
  Gives-if : (b : Bool) (m n : M A) → Gives P m → Gives P n → Gives P (if b then m else n)
  Gives-if true m n h k = h
  Gives-if false m n h k = k

  Gives-fail : (e : Error) → Gives P (fail e)
  Gives-fail e w a h = absurd (cc h)

  pub Gives-lift : (r : Outcome Error A) → ((a : A) → r ≡ ok a → P a) → Gives P (lift r)
  Gives-lift r h w a e = h a e

  Gives-pure : (a : A) → P a → Gives P (pure a)
  Gives-pure a h w b e = subst P (cc) h

module _ (s : Service) (ps : List Preview) where
  -- A free candidate.
  abbrev Free : Option Choice → Type 0
  Free none = Unit
  Free (some c) =
      InPool s c.port
      × (c.gateway ≡ gateway_for s c.port)
      × (c.evicted ≡ none)
      × All (λ q. q.external_port ≢ c.port) ps

  probe-Free :
      (requested p : ℕ) (free : Bool) (m : M (Option Choice))
      → InPool s p
      → All (λ q. q.external_port ≢ p) ps
      → Gives Free m
      → Gives Free (probe s requested p free m)
  probe-Free requested p true m h k g = Gives-bind Free (port_available s p) _ λ available.
      Gives-if Free available _ _ (Gives-pure Free _ (h, refl, refl, k))
        (Gives-if Free (requested == 0) _ _ g (Gives-fail Free _))
  probe-Free requested p false m h k g = Gives-if Free (requested == 0) _ _ g (Gives-fail Free _)

  candidate-Free :
      (requested p : ℕ) (later : M (Option Choice)) (taken : Bool)
      → any (uses_port p) ps ≡ taken
      → InPool s p
      → Gives Free later
      → Gives Free (
          if taken then skip requested (port_owned requested) later else do
            free ← ask (λ h. s.host.port_free h (gateway_for s p))
            probe s requested p free later)
  candidate-Free requested p later true e h g =
      Gives-if Free (requested == 0) _ _ g (Gives-fail Free _)
  candidate-Free requested p later false e h g =
      Gives-bind Free _ _ λ free. probe-Free requested p free later h (any-false p ps e) g

  first_free-Free :
      (requested : ℕ) (ports : List ℕ)
      → All (InPool s) ports
      → Gives Free (first_free s ps requested ports)
  unfolding first_free
  first_free-Free requested [] h = Gives-pure Free none tt
  first_free-Free requested (p ∷ rest) h =
      candidate-Free requested p (first_free s ps requested rest) (any (uses_port p) ps) refl h.0
        (first_free-Free requested rest h.1)

  -- The port of a preview that may go, or of the one that is replaced.
  module _ (u : Unique ps) (placed : All (Placed s) ps) (id : Text) where
    Victims : Preview → Type 0
    Victims v = Placed s v × All (Owns v) ps

    All-Victims :
        (qs : List Preview) → All (Placed s) qs → All (λ v. All (Owns v) ps) qs → All Victims qs
    unfolding Victims
    All-Victims [] h k = tt
    All-Victims (q ∷ qs) h k = ((h.0, k.0), All-Victims qs h.1 k.1)

    victim_of-Chosen :
        (vs : List Preview) (c : Choice) → All Victims vs → victim_of vs ≡ ok c → Chosen s ps id c
    unfolding Victims
    victim_of-Chosen [] c h e = absurd (cc e)
    victim_of-Chosen (v ∷ vs) c h e =
        let same : ports_of v (some v) ≡ c = cc in
        subst (Chosen s ps id) same (record {
          in_pool = h.0.0.0;
          gateway_matches = h.0.0.1;
          nobody_has_it = All-without_id _ v.id _ (others ps h.0.1);
          same_port = rw (==_refl v.external_port) refl;
        })
      where
        others : (qs : List Preview) → All (Owns v) qs → All (Owns v) (without_id qs id)
        others qs k = All-without_id _ id qs (All-map (Owns v) _ qs (λ q o _. o) k)

    evict-Chosen : Gives (Chosen s ps id) (evict s ps)
    unfolding evict eviction_candidates
    evict-Chosen = Gives-bind _ (active_requests s) _ λ active. Gives-lift _ _ λ c.
        victim_of-Chosen _ c (
          All-sort_by by_use Victims _
            (All-filter Victims _ ps (All-Victims ps placed (Unique-Owns ps u))))

    or_evict-Chosen : (c : Option Choice) → Free c → Gives (Chosen s ps id) (or_evict s ps c)
    or_evict-Chosen none h = evict-Chosen
    or_evict-Chosen (some c) h = Gives-pure _ c (record {
      in_pool = h.0;
      gateway_matches = h.1;
      nobody_has_it = rw h.2 (All-without_id _ id ps (All-map _ _ ps (λ q k _. k) h.3));
      same_port = rw h.2 refl;
    })

    pub keep_port-Chosen :
        (f : Found) (requested : ℕ) (c : Choice)
        → index_by_id ps id ≡ some f
        → keep_port requested f.preview ≡ ok c
        → Chosen s ps id c
    unfolding index_by_id Victims
    keep_port-Chosen f requested c e k =
        let same : ports_of f.preview none ≡ c = ground arith in
        let split : ps ≡ f.before ++ f.preview ∷ f.after =
          subst (Splits ps) e (find_by-Splits (has_id id) ps) in
        let found : text_eq f.preview.id id ≡ true =
          subst (Passes (has_id id)) e (find_by-Passes (has_id id) ps) in
        let v : Victims f.preview =
          All-middle Victims f.preview f.after f.before
            (subst (All Victims) split (All-Victims ps placed (Unique-Owns ps u))) in
        subst (Chosen s ps id) same (record {
          in_pool = v.0.0;
          gateway_matches = v.0.1;
          nobody_has_it =
              subst (λ i. All (λ q. q.external_port ≢ f.preview.external_port) (without_id ps i))
                ((text_eq_iff f.preview.id id).0 found) (All-without_id _ f.preview.id ps v.1);
          same_port = refl;
        })

allocate-Chosen :
    (s : Service) (reg : Registry) (id : Text) (requested : ℕ)
    → IsValid s reg
    → Gives (Chosen s reg.previews id) (allocate s reg id requested)
unfolding allocate
allocate-Chosen s reg id requested v =
    Gives-then (All (InPool s)) _ _ _
      (Gives-lift _ _ λ ports. candidates-InPool s reg id requested ports v.reserved)
      λ ports h.
        Gives-then (Free s reg.previews) _ _ _ (first_free-Free s reg.previews requested ports h)
          (or_evict-Chosen s reg.previews v.unique v.placed id)

-- For a valid registry, whatever port choosePort returns on any of its three ways (the port that the
-- project has, a free one, that of an evicted preview) is a port of the pool, comes with the gateway
-- port that belongs to it, is the port of no preview that stays registered beside the new one; and
-- a preview that is evicted for it had that port.
pub choose_port-Chosen :
    (s : Service) (reg : Registry) (id : Text) (requested : ℕ) (w : World) (c : Choice)
    → IsValid s reg
    → (choose_port s reg id requested w).0 ≡ ok c
    → Chosen s reg.previews id c
unfolding choose_port
choose_port-Chosen s reg id requested w c v = by_index (index_by_id reg.previews id) refl w c
  where
    by_index :
        (f : Option Found)
        → index_by_id reg.previews id ≡ f
        → Gives (Chosen s reg.previews id) (choice_of s reg id requested f)
    by_index none e = allocate-Chosen s reg id requested v
    by_index (some f) e =
        Gives-lift _ _ λ c. keep_port-Chosen s reg.previews v.unique v.placed id f requested c e
