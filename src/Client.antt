-- ===== src/Client.antt =====
-- The life of a connection: the class Client of src/events.cc, which counts its references, and
-- ClientThread of src/client_thread.cc, which holds one while a command runs in a thread. The calls
-- come one after the other. `deleted` is set by `delete this`.
pub mod Lifetime
use topy.Prelude.{ℕ, zero, suc, ◌+◌, ◌-◌, Bool, true, false, ltb, ◌==◌, if◌then◌else◌}

-- ev_buffer: whether it is there.
pub record Client : Type 0 where
  pub ended : Bool
  pub opened : Bool
  pub ev_buffer : Bool
  pub ref_count : ℕ
  pub deleted : Bool

unfoldable pub ref : Client → Client
ref c = record c { ref_count = c.ref_count + 1 }

unfoldable pub unref : Client → Client
unref c = if ltb c.ref_count 1 then c else record c {
  ref_count = c.ref_count - 1;
  deleted = if c.ref_count - 1 == 0 then true else c.deleted;
}

unfoldable pub close : Client → Client
unfolding unref
close c = unref (record c { opened = false; ev_buffer = false })

-- open, by whether bufferevent_new makes a buffer.
unfoldable pub open_client : Bool → Client → Client × Bool
unfolding ref
open_client made c =
    if made
    then (ref (record c { ev_buffer = true }), true)
    else (record c { ev_buffer = false; deleted = true }, false)

-- The constructor
unfoldable pub new_client : Bool → Client
unfolding open_client
new_client made =
    (open_client made (record {
      ended = false;
      opened = true;
      ev_buffer = false;
      ref_count = 0;
      deleted = false;
    })).0

unfoldable pub exit : Client → Client
exit c = record c { ended = true }

-- ClientThread::ClientThread, for each of the threads that a command starts.
unfoldable pub ref_each : ℕ → Client → Client
unfolding ref
ref_each zero c = c
ref_each (suc n) c = ref_each n (ref c)

-- receive, by whether the command is quit and by how many threads it starts.
unfoldable pub receive : Bool → ℕ → Client → Client
unfolding ref_each exit
receive quit n c = let r = ref_each n c in if quit then exit r else r

unfoldable pub client_read : Bool → ℕ → Client → Client
unfolding receive close
client_read quit n c = let r = receive quit n c in if r.ended then close r else r

unfoldable pub client_error : Client → Client
unfolding close
client_error c = close c
