-- ===== src/Tcp/Inner/Sent.antt =====
-- What a run of calls of `write` of `Inner` in src/tcp.rs does with the messages that were queued
-- before it: the first are handed to the stream, the last dropped.
use socket_collection.Base.{
  ◌≤◌, ◌≡◌, refl, sym, ap, subst, ◌∙◌, List, [], ◌++◌, All, All-append, concat, concat-append,
  map-append, append_assoc, append-nil,
}
use socket_collection.Env.{Crates, Bytes}
use socket_collection.OutQueue.Order.{Entry}
use socket_collection.OutQueue.Refinement.{queued}
use socket_collection.OutQueue.Waiting.{current, messages}
use socket_collection.Mio.{TcpApi}
use socket_collection.Tcp.Inner.{Inner}
use socket_collection.Tcp.Inner.Pending.{SendLaws}

split-split :
    {A : Type 0} (l sent mid dropped sent' left dropped' : List A)
    → l ≡ sent ++ (mid ++ dropped)
    → mid ≡ sent' ++ (left ++ dropped')
    → l ≡ (sent ++ sent') ++ (left ++ (dropped' ++ dropped))
split-split l sent mid dropped sent' left dropped' e e' =
    e
    ∙ ap (λ m. sent ++ (m ++ dropped)) e'
    ∙ ap (◌++◌ sent) (
        append_assoc sent' (left ++ dropped') dropped
        ∙ ap (◌++◌ sent') (append_assoc left dropped' dropped))
    ∙ sym (append_assoc sent sent' (left ++ (dropped' ++ dropped)))

module _ {x : Crates} {api : TcpApi x} (laws : SendLaws api) where
  -- The stream has accepted the first of the queued messages, behind what it accepted before and
  -- the message that was being sent, but for the rest of the one that is being sent now. The queue
  -- has only lost these at the front, and at the end messages that may be dropped.
  pub record HandsOver (s t : Inner api) : Type 0 where
    pub sent : List (Entry Bytes)
    pub dropped : List (Entry Bytes)
    pub split : queued s.out_queue ≡ sent ++ (queued t.out_queue ++ dropped)
    pub droppable : All (λ e. s.out_queue.conf.msg_drop_priority ≤ e.priority) dropped
    pub conf : t.out_queue.conf ≡ s.out_queue.conf
    pub wire :
        laws.wire t.stream ++ concat (current t.current_write)
        ≡ (laws.wire s.stream ++ concat (current s.current_write)) ++ concat (messages sent)

  pub HandsOver-self : (s : Inner api) → HandsOver s s
  HandsOver-self s = record {
    sent = [];
    dropped = [];
    split = sym (append-nil (queued s.out_queue));
    droppable = tt;
    conf = refl;
    wire = sym (append-nil (laws.wire s.stream ++ concat (current s.current_write)));
  }

  pub HandsOver-trans : (s t u : Inner api) → HandsOver s t → HandsOver t u → HandsOver s u
  HandsOver-trans s t u h h' = record {
    sent = h.sent ++ h'.sent;
    dropped = h'.dropped ++ h.dropped;
    split =
        split-split (queued s.out_queue) h.sent (queued t.out_queue) h.dropped h'.sent
          (queued u.out_queue) h'.dropped h.split h'.split;
    droppable =
        All-append (λ e. s.out_queue.conf.msg_drop_priority ≤ e.priority) h'.dropped h.dropped
          (subst (λ c. All (λ e. c.msg_drop_priority ≤ e.priority) h'.dropped) h.conf h'.droppable)
          h.droppable;
    conf = h'.conf ∙ h.conf;
    wire =
        h'.wire
        ∙ ap (λ w. w ++ concat (messages h'.sent)) h.wire
        ∙ append_assoc (laws.wire s.stream ++ concat (current s.current_write))
            (concat (messages h.sent)) (concat (messages h'.sent))
        ∙ ap (◌++◌ (laws.wire s.stream ++ concat (current s.current_write))) (
            sym (concat-append (messages h.sent) (messages h'.sent))
            ∙ ap concat (sym (map-append (λ e. e.msg) h.sent h'.sent)));
  }
