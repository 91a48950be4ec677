-- ===== src/OutQueue/Ledger.antt =====
-- The account of a queue of src/out_queue.rs over many calls: which of the messages that were given
-- to it, encoded, have been taken from it, and which wait.
use socket_collection.Base.{
  ◌≤◌, ◌≡◌, refl, sym, ap, subst, ◌∙◌, List, [], ◌∷◌, ◌++◌, All, append_assoc, append-nil,
}
use socket_collection.Base.Related.{Forall₂-append, Forall₂-split}
use socket_collection.Env.{Crates}
use socket_collection.Config.{Priority, SocketConfig}
use socket_collection.OutQueue.{OutQueue, Clock, push_at, drop_expired}
use socket_collection.OutQueue.Order.{Entry, insert_entry}
use socket_collection.OutQueue.Refinement.{IsWellFormed, queued, queued-push_at}
use socket_collection.OutQueue.Waiting.{messages}
use socket_collection.OutQueue.Expiry.{drop_expired-queued}
use socket_collection.OutQueue.Fates.{
  IsSorted, insert_entry-IsSorted, IsSorted-append, Survives, Survives-drop, Survives-insert_entry,
  Forall₂-insert_entry,
}
use mathlib.Core.List.{Forall₂, Sublistᴰ}
use mathlib.Core.List.Forall₂

-- The entry with another message, such as its encoding.
abbrev pub with_msg : {A B : Type 0} → Entry A → B → Entry B
with_msg m msg = record { priority = m.priority; queued_at = m.queued_at; msg = msg }

-- The same messages, entry by entry, with their priorities.
pub record Encodes {A B : Type 0} (R : A → B → Type 0) (m : Entry A) (f : Entry B) : Type 0 where
  pub same : m.priority ≡ f.priority
  pub encoded : R m.msg f.msg

module _ {A B : Type 0} (R : A → B → Type 0) where
  All-Encodes :
      (low : Priority) {ms : List (Entry A)} {fs : List (Entry B)}
      → Forall₂ (Encodes R) ms fs
      → All (λ f. low ≤ f.priority) fs
      → All (λ m. low ≤ m.priority) ms
  All-Encodes low Forall₂.nil a = tt
  All-Encodes low (Forall₂.cons r h) a =
      (subst (λ p. low ≤ p) (sym r.same) a.0, All-Encodes low h a.1)

  pub Encodes-messages :
      {ms : List (Entry A)} {fs : List (Entry B)}
      → Forall₂ (Encodes R) ms fs
      → Forall₂ R (messages ms) (messages fs)
  Encodes-messages Forall₂.nil = Forall₂.nil
  Encodes-messages (Forall₂.cons r h) = Forall₂.cons r.encoded (Encodes-messages h)

  -- Of the messages `vs` that were pushed with this drop priority, those whose encodings are `gone`
  -- have been taken in this order, and those whose encodings are `waits` are left.
  pub record Ledger (low : Priority) (vs : List (Entry A)) (gone waits : List (Entry B))
      : Type 0 where
    pub sent : List (Entry A)
    pub left : List (Entry A)
    pub sent_as : Forall₂ (Encodes R) sent gone
    pub left_as : Forall₂ (Encodes R) left waits
    pub sorted : IsSorted left
    pub survives : Survives low (sent ++ left) vs

  pub Ledger-drop :
      (low : Priority) (vs : List (Entry A)) (gone kept dropped : List (Entry B))
      → All (λ f. low ≤ f.priority) dropped
      → Ledger low vs gone (kept ++ dropped)
      → Ledger low vs gone kept
  Ledger-drop low vs gone kept dropped droppable w =
      let (us, ds, e, before, after) = Forall₂-split kept dropped w.left_as in
      record {
        sent = w.sent;
        left = us;
        sent_as = w.sent_as;
        left_as = before;
        sorted = (IsSorted-append us ds (subst IsSorted e w.sorted)).0;
        survives = Survives-drop low (w.sent ++ us) ds vs (All-Encodes low after droppable) (
            subst (λ l. Survives low l vs) (ap (◌++◌ w.sent) e ∙ sym (append_assoc w.sent us ds))
              w.survives);
      }

  pub Ledger-push :
      (low : Priority) (vs : List (Entry A)) (gone waits : List (Entry B)) (m : Entry A)
      → (f : Entry B) → Encodes R m f
      → Ledger low vs gone waits
      → Ledger low (vs ++ (m ∷ [])) gone (insert_entry f waits)
  Ledger-push low vs gone waits m f r w = record {
    sent = w.sent;
    left = insert_entry m w.left;
    sent_as = w.sent_as;
    left_as = Forall₂-insert_entry (Encodes R) (λ a b h. h.same) r w.left_as;
    sorted = insert_entry-IsSorted m w.left w.sorted;
    survives = Survives-insert_entry low w.sent w.left vs m w.sorted w.survives;
  }

  pub Ledger-take :
      (low : Priority) (vs : List (Entry A)) (gone taken waits : List (Entry B))
      → Ledger low vs gone (taken ++ waits)
      → Ledger low vs (gone ++ taken) waits
  Ledger-take low vs gone taken waits w =
      let (us, ls, e, before, after) = Forall₂-split taken waits w.left_as in
      record {
        sent = w.sent ++ us;
        left = ls;
        sent_as = Forall₂-append w.sent_as before;
        left_as = after;
        sorted = (IsSorted-append us ls (subst IsSorted e w.sorted)).1;
        survives =
            subst (λ l. Survives low l vs) (ap (◌++◌ w.sent) e ∙ sym (append_assoc w.sent us ls))
              w.survives;
      }

  pub Ledger-nil :
      (low : Priority) (vs : List (Entry A)) (gone waits : List (Entry B))
      → Ledger low vs gone waits
      → waits ≡ []
      → (us : List (Entry A)) × Survives low us vs × Forall₂ (Encodes R) us gone
  Ledger-nil low vs gone waits w none_waits =
      let none_left : w.left ≡ [] =
        Forall₂.eq-nil_left (subst (Forall₂ (Encodes R) w.left) none_waits w.left_as) in
      (
        w.sent,
        subst (λ l. Survives low l vs) (ap (◌++◌ w.sent) none_left ∙ append-nil w.sent) w.survives,
        w.sent_as,
      )

module _ {x : Crates} {A B : Type 0} (R : A → B → Type 0) (conf : SocketConfig x) where
  -- The account of a whole queue with this configuration.
  pub record Tracks (vs : List (Entry A)) (gone : List (Entry B)) (q : OutQueue x B) : Type 0 where
    pub ordered : IsWellFormed q
    pub configured : q.conf ≡ conf
    pub ledger : Ledger R conf.msg_drop_priority vs gone (queued q)

  pub Tracks-new :
      (q : OutQueue x B) → IsWellFormed q → q.conf ≡ conf → queued q ≡ [] → Tracks [] [] q
  Tracks-new q w e empty = record {
    ordered = w;
    configured = e;
    ledger = record {
      sent = [];
      left = [];
      sent_as = Forall₂.nil;
      left_as = subst (Forall₂ (Encodes R) []) (sym empty) Forall₂.nil;
      sorted = tt;
      survives = λ q. (Sublistᴰ.slnil, λ below. refl);
    };
  }

  pub Tracks-drop_expired :
      (vs : List (Entry A)) (gone : List (Entry B)) (q : OutQueue x B) (clock : Clock)
      → Tracks vs gone q
      → Tracks vs gone (drop_expired clock q).1
  Tracks-drop_expired vs gone q clock w =
      let (dropped, split, count, ordered, same, droppable, stale, left) =
        drop_expired-queued q clock w.ordered in
      record {
        ordered = ordered;
        configured = same ∙ w.configured;
        ledger =
            Ledger-drop R conf.msg_drop_priority vs gone (queued (drop_expired clock q).1) dropped
              (subst (λ k. All (λ f. k.msg_drop_priority ≤ f.priority) dropped) w.configured
                droppable)
              (subst (Ledger R conf.msg_drop_priority vs gone) split w.ledger);
      }

  pub Tracks-push_at :
      (vs : List (Entry A)) (gone : List (Entry B)) (q : OutQueue x B) (m : Entry A) (msg : B)
      → R m.msg msg
      → Tracks vs gone q
      → Tracks (vs ++ (m ∷ [])) gone (push_at q m.queued_at msg m.priority)
  Tracks-push_at vs gone q m msg r w =
      let (ordered, pushed, same) = queued-push_at q m.queued_at msg m.priority w.ordered in
      record {
        ordered = ordered;
        configured = same ∙ w.configured;
        ledger = subst (Ledger R conf.msg_drop_priority (vs ++ (m ∷ [])) gone) (sym pushed) (
            Ledger-push R conf.msg_drop_priority vs gone (queued q) m (with_msg m msg)
              (record { same = refl; encoded = r }) w.ledger);
      }

  pub Tracks-take :
      (vs : List (Entry A)) (gone taken : List (Entry B)) (q q' : OutQueue x B)
      → IsWellFormed q'
      → q'.conf ≡ q.conf
      → queued q ≡ taken ++ queued q'
      → Tracks vs gone q
      → Tracks vs (gone ++ taken) q'
  Tracks-take vs gone taken q q' ordered same split w = record {
    ordered = ordered;
    configured = same ∙ w.configured;
    ledger =
        Ledger-take R conf.msg_drop_priority vs gone taken (queued q')
          (subst (Ledger R conf.msg_drop_priority vs gone) split w.ledger);
  }
