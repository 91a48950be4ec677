-- ===== src/Udp/Inbox/Safety.antt =====
-- No round of the receiving loop of src/udp.rs panics, whatever the socket answers.
use socket_collection.Base.{ℕ, Result}
use socket_collection.Base.Loop.{Flow, again, return, loop, loop-Safe, Safe, Keeps}
use socket_collection.Env.{Crates}
use socket_collection.Error.{IoError, Res}
use socket_collection.Udp.Handlers.{IsEmpty}
use socket_collection.Udp.Inbox.{Inbox, recv_round}

abbrev pub Anything {ℓ} : {A : Type ℓ} → A → Type 0
Anything a = Unit

Keeps-Anything {ℓ κ} : {R : Type ℓ} {S : Type κ} (f : Flow R S) → Keeps Anything Anything f
Keeps-Anything (again s) = tt
Keeps-Anything (return r) = tt

module _ {x : Crates} {Sock M R : Type 0} (e : IsEmpty M) (decode : M → Res x R)
    (recv : Sock → Result IoError M × Sock) where
  recv_round-Safe : (s : Inbox Sock M) → Safe (Keeps Anything Anything) (recv_round e decode recv s)
  unfolding recv_round
  recv_round-Safe s = Keeps-Anything _

  pub recv-Safe :
      (fuel : ℕ) (s : Inbox Sock M) → Safe Anything (loop fuel (recv_round e decode recv) s)
  recv-Safe fuel s =
      loop-Safe Anything Anything (recv_round e decode recv) (λ t u. recv_round-Safe t) fuel s tt
