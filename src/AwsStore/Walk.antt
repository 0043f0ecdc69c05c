-- ===== src/AwsStore/Walk.antt =====
-- The methods of agent_resilience/aws_store.py as runs of the table's state machine.
use agent_resilience_runtime.Prelude.{
  String, Bool, true, Option, List, [], ◌∷◌, ◌≡◌, refl, sym, inl, inr, Bool-cases,
}
use agent_resilience_runtime.Exec.{◌>>◌}
use agent_resilience_runtime.Exec.Keeps.{IsPreorder, Moves, Moves-bind}
use agent_resilience_runtime.Models.{Arguments}
use agent_resilience_runtime.AwsTools.{Answer}
use agent_resilience_runtime.AwsStore.Cloud.{Services, Key, Item, Update, Body, asking}
use agent_resilience_runtime.AwsStore.Queue.{acknowledge}
use agent_resilience_runtime.AwsStore.Table.{Items, IsTable, IsQueueApart}
use agent_resilience_runtime.AwsStore.Steps.{Put, Change, put, change, Reaches, stay, after}
use agent_resilience_runtime.AwsStore.Handles.{Handles, Calls}
use agent_resilience_runtime.AwsStore.Methods.{perform-Moves}
use agent_resilience_runtime.AwsStore.Trace.{
  Operation, acknowledge_receipt, is_acknowledge, perform, perform_all,
}

Reaches_trans : (f g h : Items) → Reaches f g → Reaches g h → Reaches f h
Reaches_trans f g h (stay e) more = rw (sym e) more
Reaches_trans f g h (after {g = m} step rest) more = after step (Reaches_trans m g h rest more)

module _ {S : Type 0} (services : Services S) (items : S → Items) where
  -- What a call of the store does to the table.
  abbrev pub Walks : S → S → Type 0
  Walks s t = Reaches (items s) (items t)

  Walks-IsPreorder : IsPreorder Walks
  Walks-IsPreorder = record {
    same = λ s. stay refl;
    then_ = λ s t u. Reaches_trans (items s) (items t) (items u);
  }

  Moves-asking :
      {A : Type 0} (op : String) (call : S → Answer A × S)
      → Calls Walks call
      → Moves Walks (asking op call)
  Moves-asking op call h = record { at = h }

  module _ (queue_url : String) (dlq_url : Option String) (hash : Arguments → String)
      (table : IsTable services items) (apart : IsQueueApart services items) where
    Calls-put :
        (new : Bool) (k : Key) (i : Item) → Put new k i → Calls Walks (services.put_item new k i)
    Calls-put new k i p s = elim (table.put_moves new k i s) [
      | inl e ↦ stay e
      | inr (guard, e) ↦ after (put new k i p guard e) (stay refl)
    ]

    Calls-update : (k : Key) (u : Update) → Change k u → Calls Walks (services.update_item k u)
    Calls-update k u c s = elim (table.update_moves k u s) [
      | inl e ↦ stay e
      | inr (guard, e) ↦ after (change k u c guard e) (stay refl)
    ]

    transfer :
        (op url from receipt : String) (b : Body)
        → Moves Walks (
            asking op (services.send_message url b)
            >> asking op (services.delete_message from receipt))
    transfer op url from receipt b =
        Moves-bind Walks-IsPreorder (asking op (services.send_message url b))
          (λ m. asking op (services.delete_message from receipt))
          (Moves-asking op (services.send_message url b) (λ s. stay (apart.send_keeps url b s)))
          (λ m.
            Moves-asking op (services.delete_message from receipt)
              (λ s. stay (apart.delete_keeps from receipt s)))

    Walks-Handles : Handles services queue_url dlq_url Walks
    Walks-Handles = record {
      order = Walks-IsPreorder;
      get = λ k s. stay (table.get_keeps k s);
      put = Calls-put;
      update = Calls-update;
      events = λ id s. stay (table.query_keeps id s);
      workflows = λ n s. stay (table.query_workflows_keeps n s);
      send = λ url b s. stay (apart.send_keeps url b s);
      receive = λ url n m s. stay (apart.receive_keeps url n m s);
      visibility = λ url receipt n s. stay (apart.visibility_keeps url receipt n s);
      depth = λ url s. stay (apart.depth_keeps url s);
      bury = λ op url receipt b e. transfer op url queue_url receipt b;
      revive = λ op url receipt b e. transfer op queue_url url receipt b;
    }

    acknowledge-Walks :
        (o : Operation) (s : S)
        → is_acknowledge o ≡ true
        → Walks s (perform services queue_url dlq_url hash o s)
    unfolding acknowledge
    acknowledge-Walks (acknowledge_receipt r) s e = stay (apart.delete_keeps queue_url r s)
    acknowledge-Walks _ s e = absurd (cc e)

    -- Every method, on every path that it takes, returns or raises on, changes the table by the
    -- guarded writes of the state machine alone.
    perform-Walks : (o : Operation) (s : S) → Walks s (perform services queue_url dlq_url hash o s)
    perform-Walks o s = elim (Bool-cases (is_acknowledge o)) [
      | inl e ↦ acknowledge-Walks o s e
      | inr e ↦ perform-Moves services queue_url dlq_url hash Walks-Handles o s e
    ]

    pub perform_all-Walks :
        (os : List Operation) (s : S) → Walks s (perform_all services queue_url dlq_url hash os s)
    perform_all-Walks [] s = stay refl
    perform_all-Walks (o ∷ os) s =
        Reaches_trans _ _ _ (perform-Walks o s)
          (perform_all-Walks os (perform services queue_url dlq_url hash o s))
