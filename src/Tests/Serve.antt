-- ===== src/Tests/Serve.antt =====
-- The theorems on the Tailscale client at a serve status with Funnel, and at a client whose commands
-- succeed.
use tailpreview.Base.{◌≡◌, ◌↔◌, refl, true, false, not, none, some, [], ◌∷◌}
use tailpreview.Base.Strings.{
  codes, text_eq, has_prefix, has_suffix, contains, to_lower, lower_rune, itoa, cut_last,
}
use tailpreview.Base.Outcome.{ok}
use tailpreview.Url.{port, split_host_port}
use tailpreview.Json.{Json, boolean, object, empty, member}
use tailpreview.Tailscale.Search.{
  contains_port, contains_enabled_funnel_port, names_port, string_contains_port, is_funnel_key,
  truthy,
}
use tailpreview.Tailscale.Client.{Cli, expose_port, said, serve_https}
use tailpreview.Tailscale.Public.{funnel_port_is_taken, expose_port_iff}
use tailpreview.Tests.Network.{path_net}

abbrev funnelled : Json
funnelled = object (
    member (codes "AllowFunnel") (object (member (codes "dev.ts.net:8443") (boolean true) empty))
      empty)

is_funnelled : contains_enabled_funnel_port path_net 8443 false funnelled ≡ true
unfolding contains_enabled_funnel_port names_port string_contains_port is_funnel_key truthy text_eq
    has_prefix has_suffix contains to_lower lower_rune itoa port split_host_port cut_last
is_funnelled = refl

funnel_port_is_taken_example : not (contains_port path_net 8443 funnelled) ≡ false
funnel_port_is_taken_example = funnel_port_is_taken path_net 8443 funnelled is_funnelled

abbrev good_cli : Cli
good_cli = record {
  run = λ _ _. record {
    stdout = codes "Available within your tailnet";
    stderr = [];
    error = none;
    expired = false;
  };
  decode_status = λ _. none;
  decode = λ _. some funnelled;
}

expose_port_iff_example :
    (expose_port path_net good_cli 8443 18080 [] ≡ (ok tt, serve_https 8443 18080 ∷ [])) ↔ (
      ((good_cli.run [] (serve_https 8443 18080)).error ≡ none)
      × (contains
            (said path_net good_cli (good_cli.run [] (serve_https 8443 18080)))
            (codes "serve is not enabled")
          ≡ false)
      × (contains
            (said path_net good_cli (good_cli.run [] (serve_https 8443 18080)))
            (codes "available on the internet")
          ≡ false)
      × (serve_https 8443 18080 ∷ [] ≡ serve_https 8443 18080 ∷ []))
expose_port_iff_example =
    expose_port_iff path_net good_cli 8443 18080 [] (serve_https 8443 18080 ∷ [])
