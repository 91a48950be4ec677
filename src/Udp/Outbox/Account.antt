-- ===== src/Udp/Outbox/Account.antt =====
-- The account of one queue of src/udp.rs with its socket over many calls.
use socket_collection.Base.{
  ℕ, ◌≡◌, sym, ap, ap₂, subst, ◌∙◌, List, [], ◌∷◌, ◌++◌, none, ok, Bool, Result, done, map-append,
}
use socket_collection.Base.Loop.{loop}
use socket_collection.Env.{Crates}
use socket_collection.Error.{IoError}
use socket_collection.Config.{SocketConfig}
use socket_collection.OutQueue.{Clock, push_at, drop_expired}
use socket_collection.OutQueue.Order.{Entry}
use socket_collection.OutQueue.Refinement.{IsWellFormed, queued}
use socket_collection.OutQueue.Waiting.{current, messages}
use socket_collection.OutQueue.Ledger.{
  Tracks, Tracks-new, Tracks-drop_expired, Tracks-push_at, Tracks-take,
}
use socket_collection.Udp.Outbox.{Outbox, flush_round}
use socket_collection.Udp.Outbox.Flush.{SendLaws}
use socket_collection.Udp.Outbox.Moves.{begun, loop-Moves}

module _ {x : Crates} {Sock A M : Type 0} (send : Sock → M → Result IoError ℕ × Sock) (len : M → ℕ)
    (laws : SendLaws send len) (R : A → M → Type 0) (conf : SocketConfig x) where
  -- Of the messages `vs`, some have been handed to the socket as datagrams, and some wait.
  pub record Posted (vs : List (Entry A)) (s : Outbox x Sock M) : Type 0 where
    pub gone : List (Entry M)
    pub datagrams : begun send len laws s ≡ messages gone
    pub tracks : Tracks R conf vs gone s.out_queue

  pub Posted-new :
      (s : Outbox x Sock M)
      → laws.sent s.sock ≡ []
      → s.current_write ≡ none
      → IsWellFormed s.out_queue
      → s.out_queue.conf ≡ conf
      → queued s.out_queue ≡ []
      → Posted [] s
  Posted-new s fresh none_begun w e empty = record {
    gone = [];
    datagrams = ap₂ (λ l o. l ++ current o) fresh none_begun;
    tracks = Tracks-new R conf s.out_queue w e empty;
  }

  pub Posted-drop_expired :
      (vs : List (Entry A)) (s : Outbox x Sock M) (clock : Clock)
      → Posted vs s
      → Posted vs (record s { out_queue = (drop_expired clock s.out_queue).1 })
  Posted-drop_expired vs s clock w = record {
    gone = w.gone;
    datagrams = w.datagrams;
    tracks = Tracks-drop_expired R conf vs w.gone s.out_queue clock w.tracks;
  }

  pub Posted-push_at :
      (vs : List (Entry A)) (s : Outbox x Sock M) (m : Entry A) (msg : M)
      → R m.msg msg
      → Posted vs s
      → Posted
          (vs ++ (m ∷ []))
          (record s { out_queue = push_at s.out_queue m.queued_at msg m.priority })
  Posted-push_at vs s m msg r w = record {
    gone = w.gone;
    datagrams = w.datagrams;
    tracks = Tracks-push_at R conf vs w.gone s.out_queue m msg r w.tracks;
  }

  pub Posted-loop :
      (vs : List (Entry A)) (s s' : Outbox x Sock M) (fuel : ℕ) (sent_all : Bool)
      → loop fuel (flush_round send len) s ≡ done (ok sent_all, s')
      → Posted vs s
      → Posted vs s'
  Posted-loop vs s s' fuel sent_all h w =
      let v = loop-Moves send len laws fuel s s' sent_all w.tracks.ordered h in
      record {
        gone = w.gone ++ v.gone;
        datagrams =
            v.datagrams
            ∙ ap (λ l. l ++ messages v.gone) w.datagrams
            ∙ sym (map-append (λ f. f.msg) w.gone v.gone);
        tracks =
            Tracks-take R conf vs w.gone v.gone s.out_queue s'.out_queue v.ordered v.conf v.split
              w.tracks;
      }

  pub Posted-passed :
      (vs : List (Entry A)) (s s' : Outbox x Sock M)
      → s'.out_queue ≡ s.out_queue
      → s'.current_write ≡ s.current_write
      → laws.sent s'.sock ≡ laws.sent s.sock
      → Posted vs s
      → Posted vs s'
  Posted-passed vs s s' queue same sent w = record {
    gone = w.gone;
    datagrams = ap₂ (λ l o. l ++ current o) sent same ∙ w.datagrams;
    tracks = subst (Tracks R conf vs w.gone) (sym queue) w.tracks;
  }
