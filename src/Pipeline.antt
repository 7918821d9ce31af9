-- ===== src/Pipeline.antt =====
-- The threads `thread_downsampling` of Core/dws_user.c and `send_data` of Core/mqtt_user.c over the
-- messages and the semaphores that they share, interleaved in any order. A round of the first is
-- one step; the second takes two, since it waits for `send_data_status` behind its header.
pub mod Invariant
pub mod Published
pub mod Received
use plhr_firmware.Common.{ℕ, ◌+◌, ◌<◌, ◌≡◌, Bool, true, false, List, [], ◌∷◌, ◌++◌, ℤ}
use plhr_firmware.Downsampling.{Args, Shared, Dws, Input, start, iteration, modify_message}
use plhr_firmware.Sending.{Sender, first_message, write_header, publish_message}

pub record Pipe : Type 0 where
  pub dws_posts : ℕ  -- posts of `dws_semaphore` by the interrupt routine
  pub dws_pends : ℕ  -- pends on it that have come back: the rounds of the downsampling thread
  pub dws : Dws  -- its variables, with the messages and the posts of `send_data_semaphore`
  pub shared : Shared
  pub send_pends : ℕ  -- pends on `send_data_semaphore` that have come back
  pub sending : Bool  -- the sender is behind its pend, and has not published yet
  pub sender : Sender
  pub rounds_at : List ℕ  -- how many rounds there had been at each publication

-- The state when the threads are created.
unfoldable pub created : Shared → Pipe
created s = record {
  dws_posts = 0;
  dws_pends = 0;
  dws = start;
  shared = s;
  send_pends = 0;
  sending = false;
  sender = first_message;
  rounds_at = [];
}

-- A round of `thread_downsampling` behind its pend.
unfoldable pub downsample : (ℕ → ℕ) → Args → Input → Pipe → Pipe
downsample to_nanoseconds a i p =
    let (d, s) = iteration to_nanoseconds a i (p.dws, p.shared) in
    record p { dws_pends = p.dws_pends + 1; dws = d; shared = s }

-- `send_data` from its pend to its wait.
unfoldable pub take_message : ℕ → Pipe → Pipe
take_message id_device p = record p {
  send_pends = p.send_pends + 1;
  sending = true;
  dws = record p.dws {
    messages =
        modify_message p.sender.n_msg (write_header id_device p.sender.msg_data_id) p.dws.messages;
  };
}

-- `send_data` from the read that gives `start` to its next pend.
unfoldable pub send_message : ℤ → Pipe → Pipe
send_message answer p = record p {
  sending = false;
  sender = (publish_message answer (p.sender, p.dws.messages)).0;
  rounds_at = p.rounds_at ++ p.dws_pends ∷ [];
}

module _ (to_nanoseconds : ℕ → ℕ) (a : Args) (inputs : ℕ → Input) where
  -- `inputs k` is what the outside gives round `k`.
  pub data Step (p : Pipe) : Pipe → Type 0 where
    transfer_ends : Step p (record p { dws_posts = p.dws_posts + 1 })
    -- The soft timer's thread sets the SNTP time and its flag.
    time_comes : (s : Shared) → Step p (record p { shared = s })
    downsamples :
        p.dws_pends < p.dws_posts → Step p (downsample to_nanoseconds a (inputs p.dws_pends) p)
    takes :
        (id_device : ℕ)
        → p.sending ≡ false
        → p.send_pends < p.dws.mqtt_posts
        → Step p (take_message id_device p)
    sends : (answer : ℤ) → p.sending ≡ true → Step p (send_message answer p)

  pub data Reach (p : Pipe) : Pipe → Type 0 where
    here : Reach p p
    later : {q r : Pipe} → Reach p q → Step q r → Reach p r
