-- ===== src/Cli/Program/Failed.antt =====
-- The registry file after an invocation of cmd/tailpreview/main.go that returns an error.
use tailpreview.Base.{◌≡◌, ◌⊎◌, inl, inr, ap, ◌∙◌, List}
use tailpreview.Base.Lists.{All}
use tailpreview.Base.Strings.{Text}
use tailpreview.Base.Outcome.{Outcome, ok, err}
use tailpreview.Errors.{Error, not_found}
use tailpreview.Model.{Preview}
use tailpreview.Host.{Service, World}
use tailpreview.Service.Listing.{list}
use tailpreview.Service.Command.Atomic.{failed_command_keeps_registry}
use tailpreview.Cli.{Shell}
use tailpreview.Cli.Program.{Invocation, Answer, execute}
use tailpreview.Cli.Program.Found.{IsOther}
use tailpreview.Cli.Program.Steps.{IsStep, refused, failed, answered, missed, Reads, execute-IsStep}

module _ (s : Service) (shell : Shell) (logs_dir : Text) (w : World) where
  -- Status or logs listed the previews and found none with its selector.
  pub record Missed (i : Invocation) (r : Outcome Error Answer × World) : Type 0 where
    pub selector : Text
    pub previews : List Preview
    pub reads : Reads s shell logs_dir i selector
    pub lists : (list s w).0 ≡ ok previews
    pub none_found : All (IsOther selector) previews
    pub result : r.0 ≡ err (not_found selector)
    pub listed_file : (r.1).disk ≡ ((list s w).1).disk

  step_lem :
      (i : Invocation) (r : Outcome Error Answer × World) (e : Error)
      → IsStep s shell logs_dir w i r
      → r.0 ≡ err e
      → ((r.1).disk ≡ w.disk) ⊎ Missed i r
  step_lem i r e (refused x _ p) h = inl (ap (λ y. (y.1).disk) p)
  step_lem i r e (failed c x _ k _ p) h =
      inl (ap (λ v. v.disk) p ∙ failed_command_keeps_registry s c w x k)
  step_lem i r e (answered c a _ _ _ p _) h = absurd (cc (p, h))
  step_lem i r e (missed sel ps reads l others p q) h = inr (record {
    selector = sel;
    previews = ps;
    reads = reads;
    lists = l;
    none_found = others;
    result = p;
    listed_file = ap (λ v. v.disk) q;
  })

  -- Whatever the collaborators answer, an invocation that returns an error leaves the registry file
  -- exactly as it found it, except that status and logs return the error that no preview has their
  -- selector after List has saved the list, and then the file is the one that List leaves.
  pub failed_invocation_keeps_registry :
      (i : Invocation) (e : Error)
      → (execute s shell logs_dir i w).0 ≡ err e
      → ((execute s shell logs_dir i w).1.disk ≡ w.disk) ⊎ Missed i (execute s shell logs_dir i w)
  failed_invocation_keeps_registry i e h = step_lem i _ e (execute-IsStep s shell logs_dir w i) h
