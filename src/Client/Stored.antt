-- ===== src/Client/Stored.antt =====
-- What a command that succeeds says of the daemon's rules.
use sidedns.Prelude.{
  ◌≡◌, refl, ◌∙◌, true, false, none, some, arith, Bool-cases, inl, inr, text_eq, text_eq_refl,
}
use sidedns.Text.{Text, to_lowercase}
use sidedns.Rule.{DnsRule}
use sidedns.Domain.{RegexEngine, validate_domain}
use sidedns.Message.{add, remove}
use sidedns.Store.WellFormed.{IsWellFormed, update}
use sidedns.Store.Views.{persistent_for, add_view, remove_view}
use sidedns.State.{AppState}
use sidedns.Handler.{handle, with_valid}
use sidedns.Handler.Effect.{rule_of, store_after}
use sidedns.Client.{
  Delivery, lost, handled, send, Display, AddArgs, added, add_command, removed, remove_command,
}
use sidedns.Client.Sending.{send-store}

abbrev pub rule_from : AddArgs → DnsRule
rule_from args = rule_of args.domain (record { ip = args.ip; port = args.port }) args.https

module _ (engine : RegexEngine) (display : Display) where
  add-IsValid :
      (args : AddArgs) (d : Delivery) (s : AppState)
      → (add_command engine display args d s).0.0 ≡ true
      → (validate_domain engine args.domain ≡ true)
        × ((add_command engine display args d s).1.store
            ≡ store_after engine s.store (add args.domain (rule_from args).target args.https))
  unfolding add_command send added with_valid handle
  add-IsValid args lost s done = ground (arith)
  add-IsValid args (handled stale false) s done = ground (arith)
  add-IsValid args (handled stale true) s done =
      let request = add args.domain (rule_from args).target args.https in
      elim (Bool-cases (validate_domain engine args.domain)) [
        | inl valid ↦ (valid, send-store engine stale true request s)
        | inr invalid ↦ ground (arith)
      ]

  remove-IsValid :
      (domain : Text) (d : Delivery) (s : AppState)
      → (remove_command engine display domain d s).0.0 ≡ true
      → (validate_domain engine domain ≡ true)
        × ((remove_command engine display domain d s).1.store
            ≡ store_after engine s.store (remove domain))
  unfolding remove_command send removed with_valid handle
  remove-IsValid domain lost s done = ground (arith)
  remove-IsValid domain (handled stale false) s done = ground (arith)
  remove-IsValid domain (handled stale true) s done =
      elim (Bool-cases (validate_domain engine domain)) [
        | inl valid ↦ (valid, send-store engine stale true (remove domain) s)
        | inr invalid ↦ ground (arith)
      ]

  -- If the add command ends without an error, the daemon's persistent rule for the lower-cased domain is
  -- the one that the command was given; and if the remove command does, there is none.
  pub commands_tell :
      (args : AddArgs) (domain : Text) (d : Delivery) (s : AppState)
      → IsWellFormed s.store
      → ((add_command engine display args d s).0.0 ≡ true
          → persistent_for (add_command engine display args d s).1.store (to_lowercase args.domain)
            ≡ some (rule_from args))
        × ((remove_command engine display domain d s).0.0 ≡ true
            → persistent_for
                (remove_command engine display domain d s).1.store
                (to_lowercase domain)
              ≡ none)
  unfolding update
  commands_tell args domain d s wf = (
    λ done.
        let (valid, stored) = add-IsValid args d s done in
        rw (stored, valid)
          ((add_view (rule_from args) (to_lowercase args.domain) wf).0
            ∙ rw (text_eq_refl (to_lowercase args.domain)) refl),
    λ done.
        let (valid, gone) = remove-IsValid domain d s done in
        rw (gone, valid)
          ((remove_view (to_lowercase domain) (to_lowercase domain) wf).1
            ∙ rw (text_eq_refl (to_lowercase domain)) refl),
  )
