-- ===== src/Handler/Reply.antt =====
-- Which kind of response each kind of request gets.
use sidedns.Prelude.{
  ℕ, ◌≡◌, refl, Bool, true, false, Option, none, some, List, Bool-cases, Option-cases, inl, inr,
}
use sidedns.Text.{Text, to_lowercase}
use sidedns.Rule.{DnsRule}
use sidedns.Domain.{RegexEngine, validate_domain}
use sidedns.Message.{
  IpcRequest, add, add_ephemeral, remove, remove_ephemeral, list, resolve, status, stop, subscribe,
  IpcResponse, ok, error, rules, resolved, status_of,
}
use sidedns.Store.{InnerRuleStore}
use sidedns.Store.Shared
use sidedns.State.{AppState}
use sidedns.Handler.{
  handle, with_valid, handle_add, handle_add_ephemeral, handle_remove, handle_remove_ephemeral,
}

abbrev pub domain_asked : IpcRequest → Option Text
domain_asked (add d target https) = some d
domain_asked (add_ephemeral d target https) = some d
domain_asked (remove d) = some d
domain_asked (remove_ephemeral d) = some d
domain_asked (resolve d) = some d
domain_asked _ = none

abbrev pub reads : IpcRequest → Bool
reads list = true
reads (resolve d) = true
reads status = true
reads _ = false

-- The responses that a request can get: only one that names a domain can fail, and only one that reads
-- gets what it asks for instead of an acknowledgement.
pub data IsReply : IpcRequest → IpcResponse → Type 0 where
  done : {q : IpcRequest} → reads q ≡ false → IsReply q ok
  failed : {q : IpcRequest} {d m : Text} → domain_asked q ≡ some d → IsReply q (error m)
  listing : {rs : List DnsRule} → IsReply list (rules rs)
  resolved_to : {d : Text} {r : Option DnsRule} → IsReply (resolve d) (resolved r)
  counted : {n : ℕ} → IsReply status (status_of true n)

module _ (engine : RegexEngine) (stale : List InnerRuleStore) (s : AppState) where
  with_valid-IsReply :
      (q : IpcRequest) (d : Text) (rest : Text → IpcResponse × AppState)
      → domain_asked q ≡ some d
      → IsReply q (rest (to_lowercase d)).0
      → IsReply q (with_valid engine stale s d rest).0
  unfolding with_valid
  with_valid-IsReply q d rest asked reply = elim (Bool-cases (validate_domain engine d)) [
    | inl valid ↦ rw (valid, with_valid) reply
    | inr invalid ↦ rw (invalid, with_valid) (failed asked)
  ]

  handle_remove-IsReply : (d k : Text) → IsReply (remove d) (handle_remove engine stale s k).0
  unfolding handle_remove
  handle_remove-IsReply d k = elim (Option-cases (Shared.remove stale s.store k).0) [
    | inl missing ↦ rw (missing, handle_remove) (failed refl)
    | inr (a, found) ↦ rw (found, handle_remove) (done refl)
  ]

  handle_remove_ephemeral-IsReply :
      (d k : Text) → IsReply (remove_ephemeral d) (handle_remove_ephemeral engine stale s k).0
  unfolding handle_remove_ephemeral
  handle_remove_ephemeral-IsReply d k =
      elim (Option-cases (Shared.remove_ephemeral stale s.store k).0) [
        | inl missing ↦ rw (missing, handle_remove_ephemeral) (failed refl)
        | inr (a, found) ↦ rw (found, handle_remove_ephemeral) (done refl)
      ]

  -- Every response is of the kind that its request asks for: a list to a listing, what a name resolves
  -- to, the count of a running daemon to a question for its state, and an acknowledgement to all else;
  -- or it is an error, and then the request named a domain.
  pub handle-IsReply : (q : IpcRequest) → IsReply q (handle engine stale s q).0
  unfolding handle handle_add handle_add_ephemeral
  handle-IsReply (add d target https) =
      with_valid-IsReply _ d (λ k. handle_add engine stale s k target https) refl (done refl)
  handle-IsReply (add_ephemeral d target https) =
      with_valid-IsReply _ d (λ k. handle_add_ephemeral engine stale s k target https) refl
        (done refl)
  handle-IsReply (remove d) =
      with_valid-IsReply _ d (handle_remove engine stale s) refl
        (handle_remove-IsReply d (to_lowercase d))
  handle-IsReply (remove_ephemeral d) =
      with_valid-IsReply _ d (handle_remove_ephemeral engine stale s) refl
        (handle_remove_ephemeral-IsReply d (to_lowercase d))
  handle-IsReply list = listing
  handle-IsReply (resolve d) =
      with_valid-IsReply _ d (λ k. (resolved (Shared.resolve stale s.store k), s)) refl
        (resolved_to {r = Shared.resolve stale s.store (to_lowercase d)})
  handle-IsReply status = counted
  handle-IsReply stop = done refl
  handle-IsReply subscribe = done refl
