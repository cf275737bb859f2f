-- ===== src/Tailscale/Public.antt =====
-- What the client promises about public endpoints.
use tailpreview.Base.{ℕ, ◌≡◌, ◌↔◌, Bool, true, false, not, ◌||◌, none, ◌∷◌, arith}
use tailpreview.Base.Strings.{codes, contains}
use tailpreview.Base.Outcome.{ok}
use tailpreview.Url.{Net}
use tailpreview.Json.{
  Json, null, boolean, number, string, array, object, Items, end, item, Members, empty, member,
}
use tailpreview.Tailscale.Search.{
  contains_port, contains_port_items, contains_port_members, contains_enabled_funnel_port,
  funnel_port_items, funnel_port_members, is_funnel_key,
}
use tailpreview.Tailscale.Client.{Cli, Commands, said, serve_https, expose_port}

module _ (net : Net) (p : ℕ) where
  mutual
    unfolding contains_port contains_enabled_funnel_port

    funnel-contains :
        (inside : Bool) (j : Json)
        → contains_enabled_funnel_port net p inside j ≡ true
        → contains_port net p j ≡ true
    funnel-contains inside null h = h
    funnel-contains inside (boolean _) h = absurd (cc h)
    funnel-contains inside (number n) h = ground arith
    funnel-contains inside (string t) h = ground arith
    funnel-contains inside (array xs) h = funnel-contains_items inside xs h
    funnel-contains inside (object ms) h = funnel-contains_members inside ms h

    funnel-contains_items :
        (inside : Bool) (xs : Items)
        → funnel_port_items net p inside xs ≡ true
        → contains_port_items net p xs ≡ true
    funnel-contains_items inside end h = h
    funnel-contains_items inside (item x xs) h =
        ground (arith, funnel-contains inside x, funnel-contains_items inside xs)

    funnel-contains_members :
        (inside : Bool) (ms : Members)
        → funnel_port_members net p inside ms ≡ true
        → contains_port_members net p ms ≡ true
    funnel-contains_members inside empty h = h
    funnel-contains_members inside (member key x ms) h =
        ground (
          arith,
          funnel-contains (inside || is_funnel_key key) x,
          funnel-contains_members inside ms,
        )

  -- A port on which the serve status has Funnel enabled is never available by the same serve status,
  -- whatever its shape and the order of its members.
  pub funnel_port_is_taken :
      (j : Json)
      → contains_enabled_funnel_port net p false j ≡ true
      → not (contains_port net p j) ≡ false
  funnel_port_is_taken j h = let taken = funnel-contains false j h in cc

module _ (net : Net) (cli : Cli) where
  -- Expose succeeds exactly when the one command that it runs returned no error and reported neither
  -- that Serve is disabled nor a public endpoint; and the command is then the only one.
  pub expose_port_iff :
      (p gateway : ℕ) (h h' : Commands)
      → (expose_port net cli p gateway h ≡ (ok tt, h')) ↔ (
          ((cli.run h (serve_https p gateway)).error ≡ none)
          × (contains
                (said net cli (cli.run h (serve_https p gateway)))
                (codes "serve is not enabled")
              ≡ false)
          × (contains
                (said net cli (cli.run h (serve_https p gateway)))
                (codes "available on the internet")
              ≡ false)
          × (h' ≡ serve_https p gateway ∷ h))
  unfolding expose_port
  expose_port_iff p gateway h h' =
      (λ e. (ground arith, ground arith, ground arith, ground arith), λ (a, b, c, d). ground arith)
