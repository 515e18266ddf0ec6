-- ===== src/Channel/Tests.antt =====
-- A toy secretstream, which only prefixes 17 bytes, and runs of the channel on it.
use izan_wallet.Base.{◌≡◌, refl, [], ◌∷◌, ◌++◌, drop, none, some, ok, arith, replicate, true}
use izan_wallet.Base.Bytes.{Bytes, text}
use izan_wallet.Channel.{Stream, StreamLaws, whole, Link, open_link}
use izan_wallet.Channel.Fifo.{
  sends, receives, sent, received, link_run, queue_run, link_run-queue_run,
}

abbrev toy : Stream (Unit {0})
toy = record {
  init_push = λ key. (tt, replicate 24 7);
  push = λ a m. (tt, replicate 17 0 ++ m);
  init_pull = λ key header. some tt;
  pull = λ b ct. some (tt, drop 17 ct);
}

toy_laws : StreamLaws toy (λ a b. Unit {0})
toy_laws = record {
  header_length = λ key. refl;
  header_pulls = λ key. (tt, refl, tt);
  push_length = λ a m. omega arith;
  push_pulls = λ a b m p. (tt, refl, tt);
}

abbrev some_key : Bytes
some_key = replicate 32 1

abbrev opened : Link (Unit {0})
opened = record { key = some_key; push_state = tt; pull_state = none; wire = replicate 24 7 }

opened-open_link : open_link toy whole some_key ≡ ok opened
unfolding open_link
opened-open_link = refl

link_run-queue_run_example :
    link_run toy opened
      (sends (text "unlock") ∷ sends (text "quit") ∷ receives ∷ receives ∷ receives ∷ [])
    ≡ queue_run []
        (sends (text "unlock") ∷ sends (text "quit") ∷ receives ∷ receives ∷ receives ∷ [])
link_run-queue_run_example =
    link_run-queue_run toy (λ a b. Unit {0}) toy_laws some_key opened
      (sends (text "unlock") ∷ sends (text "quit") ∷ receives ∷ receives ∷ receives ∷ [])
      opened-open_link

two_messages :
    queue_run [] (sends (text "a") ∷ sends (text "b") ∷ receives ∷ receives ∷ receives ∷ [])
    ≡ sent (ok true)
      ∷ sent (ok true)
      ∷ received (ok (some (text "a")))
      ∷ received (ok (some (text "b")))
      ∷ received (ok none)
      ∷ []
unfolding queue_run text
two_messages = refl
