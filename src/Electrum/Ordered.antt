-- ===== src/Electrum/Ordered.antt =====
-- The order of the messages in every run of the client of src/electrumclient.cpp.
use libnunchuk.Base.{◌≡◌, refl, sym, ap, subst, ◌∙◌, List, [], ◌∷◌, ◌++◌, false, not}
use mathlib.Core.List.{append_assoc, append-nil}
use libnunchuk.Base.Search.{is_empty}
use libnunchuk.Base.Text.{Text}
use libnunchuk.Electrum.Requests.{
  Client, Request, handle_write, enqueue_message, push_request, write_unless, write_front,
  pop_front, written, socket_write,
}
use libnunchuk.Electrum.Run.{Run}

-- Requests that are enqueued one after another.
abbrev pub enqueue_all : List Request → Client → Client
enqueue_all [] c = c
enqueue_all (r ∷ rs) c = enqueue_all rs (enqueue_message r c)

-- A client that writes nothing and has the requests in its queue, none of which is sent.
abbrev pub IsStalled : List Request → Client → Client → Type 0
IsStalled queue c d = (d.writing ≡ []) × (d.request_queue ≡ queue) × (d.sent ≡ c.sent)

enqueue-IsStalled :
    (rs : List Request) (q : Request) (queue : List Request) (c d : Client)
    → IsStalled (q ∷ queue) c d
    → IsStalled ((q ∷ queue) ++ rs) c (enqueue_all rs d)
unfolding enqueue_message
enqueue-IsStalled [] q queue c d (w, k, s) = (w, k ∙ sym (append-nil (q ∷ queue)), s)
enqueue-IsStalled (r ∷ rs) q queue c d (w, k, s) =
    let busy : enqueue_message r d ≡ push_request r d =
      ap (λ l. write_unless (not (is_empty l)) (push_request r d)) k in
    subst (λ l. IsStalled l c (enqueue_all rs (enqueue_message r d)))
      (append_assoc (q ∷ queue) (r ∷ []) rs)
      (subst (λ e. IsStalled (((q ∷ queue) ++ r ∷ []) ++ rs) c (enqueue_all rs e)) (sym busy)
        (enqueue-IsStalled rs q (queue ++ r ∷ []) c (push_request r d)
          (w, ap (λ l. l ++ r ∷ []) k, s)))

-- Where the end of the write of the only queued message is handled between the test of the queue in
-- enqueue_message and the rest of it, the requests stall: nothing is being written then, the request
-- stays in the queue, and so do all that are enqueued after it.
pub handle_write-enqueue_message :
    (c : Client) (q r : Request) (rs : List Request)
    → c.request_queue ≡ q ∷ []
    → let write_in_progress = not (is_empty c.request_queue) in
      let after = (handle_write false c).1 in
      IsStalled
        (r ∷ rs)
        after
        (enqueue_all rs (write_unless write_in_progress (push_request r after)))
unfolding handle_write socket_write
handle_write-enqueue_message c q r rs k =
    let idle : (handle_write false c).1 ≡ written c =
      ap (λ l. write_front (pop_front l) c.connected (written c)) k in
    let busy : write_unless (not (is_empty c.request_queue)) (push_request r (written c))
        ≡ push_request r (written c) =
      ap (λ l. write_unless (not (is_empty l)) (push_request r (written c))) k in
    subst
      (λ a.
        IsStalled (r ∷ rs) a
          (enqueue_all rs (write_unless (not (is_empty c.request_queue)) (push_request r a))))
      (sym idle)
      (subst (λ d. IsStalled (r ∷ rs) (written c) (enqueue_all rs d)) (sym busy)
        (enqueue-IsStalled rs r [] (written c) (push_request r (written c))
          (refl, ap (λ l. pop_front l ++ r ∷ []) k, refl)))
