-- ===== src/Client/Lifetime.antt =====
-- A client of src/events.cc and the threads that work for it, through reads, errors and the ends of the
-- threads.
use topy.Prelude.{
  ℕ, zero, suc, ◌+◌, ◌-◌, ◌≡◌, refl, sym, ap, subst, ◌∙◌, ◌↔◌, inl, inr, Bool, true, false, ltb,
  ◌==◌, if◌then◌else◌, arith, Bool-cases,
}
use topy.Client.{
  Client, ref, unref, close, new_client, exit, ref_each, receive, client_read, client_error,
}

-- A client and the threads that work for it.
pub record Session : Type 0 where
  pub client : Client
  pub threads : ℕ

-- What happens to it: libevent calls back while the buffer is there, and a thread ends.
pub data Step : Session → Session → Type 0 where
  reads :
      (s : Session) (quit : Bool) (n : ℕ)
      → s.client.ev_buffer ≡ true
      → Step s (record { client = client_read quit n s.client; threads = s.threads + n })
  fails :
      (s : Session)
      → s.client.ev_buffer ≡ true
      → Step s (record s { client = client_error s.client })
  ends :
      (s : Session) (n : ℕ)
      → s.threads ≡ suc n
      → Step s (record { client = unref s.client; threads = n })

pub data Reachable : Session → Type 0 where
  start : Reachable (record { client = new_client true; threads = 0 })
  after : (s t : Session) → Reachable s → Step s t → Reachable t

-- The connection, as a reference.
abbrev pub held : Bool → ℕ
held there = if there then 1 else 0

-- The references are those of the threads and of the connection.
pub record IsCounted (s : Session) : Type 0 where
  pub counted : s.client.ref_count ≡ s.threads + held s.client.ev_buffer
  pub freed : s.client.deleted ≡ (s.client.ref_count == 0)

ref_count-ref_each : (n : ℕ) (c : Client) → (ref_each n c).ref_count ≡ c.ref_count + n
unfolding ref_each
ref_count-ref_each zero c = omega arith
ref_count-ref_each (suc n) c = ref_count-ref_each n (ref c) ∙ omega arith

rest-ref_each :
    (n : ℕ) (c : Client)
    → ((ref_each n c).deleted ≡ c.deleted)
      × ((ref_each n c).ev_buffer ≡ c.ev_buffer)
      × ((ref_each n c).ended ≡ c.ended)
unfolding ref_each
rest-ref_each zero c = (refl, refl, refl)
rest-ref_each (suc n) c = rest-ref_each n (ref c)

-- A reference is given back.
unref-IsCounted :
    (c : Client) (n : ℕ)
    → c.ref_count ≡ suc (n + held c.ev_buffer)
    → c.deleted ≡ false
    → IsCounted (record { client = unref c; threads = n })
unfolding unref
unref-IsCounted c n count alive =
    let some_left : ltb c.ref_count 1 ≡ false = ground (arith, count) in
    let one_less : c.ref_count - 1 ≡ n + held c.ev_buffer = omega (arith, count) in
    record { counted = given_back c n some_left one_less; freed = freed_last c some_left alive }
  where
    given_back :
        (c : Client) (n : ℕ)
        → ltb c.ref_count 1 ≡ false
        → c.ref_count - 1 ≡ n + held c.ev_buffer
        → (unref c).ref_count ≡ n + held (unref c).ev_buffer
    given_back c n some_left one_less = ground (arith, some_left, one_less)

    freed_last :
        (c : Client)
        → ltb c.ref_count 1 ≡ false
        → c.deleted ≡ false
        → (unref c).deleted ≡ ((unref c).ref_count == 0)
    freed_last c some_left alive = ground (arith, some_left, alive)

close-IsCounted :
    (c : Client) (n : ℕ)
    → c.ref_count ≡ n + 1
    → c.deleted ≡ false
    → IsCounted (record { client = close c; threads = n })
unfolding close
close-IsCounted c n count alive =
    unref-IsCounted (record c { opened = false; ev_buffer = false }) n (omega (arith, count)) alive

receive-counts :
    (quit : Bool) (n : ℕ) (c : Client)
    → ((receive quit n c).ref_count ≡ c.ref_count + n)
      × ((receive quit n c).deleted ≡ c.deleted)
      × ((receive quit n c).ev_buffer ≡ c.ev_buffer)
unfolding receive exit
receive-counts true n c = let rest = rest-ref_each n c in (ref_count-ref_each n c, rest.0, rest.1)
receive-counts false n c = let rest = rest-ref_each n c in (ref_count-ref_each n c, rest.0, rest.1)

alive_with : (s : Session) → IsCounted s → s.client.ev_buffer ≡ true → s.client.deleted ≡ false
alive_with s h there = h.freed ∙ ground (arith, h.counted, there)

Step-IsCounted : (s t : Session) → Step s t → IsCounted s → IsCounted t
unfolding client_read client_error
Step-IsCounted s _ (reads _ quit n there) h =
    let after_read = receive-counts quit n s.client in
    let alive = after_read.1 ∙ alive_with s h there in
    let count : (receive quit n s.client).ref_count ≡ s.threads + n + 1 =
      after_read.0 ∙ ground (arith, h.counted, there) in
    elim (Bool-cases (receive quit n s.client).ended) [
      | inl over ↦
          subst
            (λ (b : Bool). IsCounted (record {
              client = if b then close (receive quit n s.client) else receive quit n s.client;
              threads = s.threads + n;
            }))
            (sym over) (close-IsCounted (receive quit n s.client) (s.threads + n) count alive)
      | inr stays ↦
          subst
            (λ (b : Bool). IsCounted (record {
              client = if b then close (receive quit n s.client) else receive quit n s.client;
              threads = s.threads + n;
            }))
            (sym stays)
            (record {
              counted =
                  count ∙ ap (λ (b : Bool). s.threads + n + held b) (sym (after_read.2 ∙ there));
              freed = alive ∙ ground (arith, count);
            })
    ]
Step-IsCounted s _ (fails _ there) h =
    close-IsCounted s.client s.threads (ground (arith, h.counted, there)) (alive_with s h there)
Step-IsCounted s _ (ends _ n more) h =
    unref-IsCounted s.client n (ground (arith, h.counted, more))
      (h.freed ∙ ground (arith, h.counted, more))

Reachable-IsCounted : (s : Session) → Reachable s → IsCounted s
unfolding new_client
Reachable-IsCounted _ start = record { counted = refl; freed = refl }
Reachable-IsCounted t (after s _ r step) = Step-IsCounted s t step (Reachable-IsCounted s r)

-- In every state that a session gets into, by reads, errors and the ends of threads one after the
-- other from a client that was opened with a buffer, the client is deleted if and only if its
-- connection is closed and none of its threads runs.
pub Reachable-deleted :
    (s : Session)
    → Reachable s
    → (s.client.deleted ≡ true) ↔ ((s.client.ev_buffer ≡ false) × (s.threads ≡ 0))
Reachable-deleted s r =
    let h = Reachable-IsCounted s r in
    elim (Bool-cases s.client.ev_buffer) [
      | inl there ↦ (
        λ gone. absurd (ground (arith, gone, alive_with s h there)),
        λ idle. absurd (ground (arith, there, idle.0)),
      )
      | inr closed ↦ (
        λ gone. (closed, ground (arith, gone, h.freed, h.counted, closed)),
        λ idle. h.freed ∙ ground (arith, h.counted, closed, idle.1),
      )
    ]

-- The connection fails, if it is there, and the threads end.
pub finish : ℕ → Client → Client
finish zero c = c
finish (suc n) c = finish n (unref c)

abbrev pub hang_up : Client → Client
hang_up c = if c.ev_buffer then client_error c else c

finish-deleted :
    (n : ℕ) (c : Client)
    → c.ev_buffer ≡ false
    → IsCounted (record { client = c; threads = n })
    → (finish n c).deleted ≡ true
unfolding finish unref
finish-deleted zero c closed h = h.freed ∙ ground (arith, h.counted, closed)
finish-deleted (suc n) c closed h =
    finish-deleted n (unref c) (ground (arith, closed))
      (unref-IsCounted c n (ground (arith, h.counted)) (h.freed ∙ ground (arith, h.counted)))

-- From every state that a session gets into, the loss of the connection, if it is there, and then
-- the end of each of its threads leave the client deleted.
pub Reachable-freed :
    (s : Session) → Reachable s → (finish s.threads (hang_up s.client)).deleted ≡ true
unfolding client_error close unref
Reachable-freed s r =
    let h = Reachable-IsCounted s r in
    elim (Bool-cases s.client.ev_buffer) [
      | inl there ↦
          subst
            (λ (b : Bool).
              (finish s.threads (if b then client_error s.client else s.client)).deleted ≡ true)
            (sym there)
            (finish-deleted s.threads (client_error s.client) (closed_now s.client) (
              close-IsCounted s.client s.threads (ground (arith, h.counted, there))
                (alive_with s h there)))
      | inr closed ↦
          subst
            (λ (b : Bool).
              (finish s.threads (if b then client_error s.client else s.client)).deleted ≡ true)
            (sym closed) (finish-deleted s.threads s.client closed h)
    ]
  where
    closed_now : (c : Client) → (client_error c).ev_buffer ≡ false
    closed_now c = ground arith
