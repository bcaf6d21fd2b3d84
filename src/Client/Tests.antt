-- ===== src/Client/Tests.antt =====
-- A client that waits for an upload (internal/client/client.go).
use burndrop.Common.{
  Bytes, codes, bytes_eq, none, some, List, [], ◌∷◌, false, ◌≡◌, inl, inr, refl, arith,
}
use burndrop.Client.{Status, Turn, Waited, answered, failed, broken, changed, wait_while}
use burndrop.Client.Returns.{IsRight, wait_while-returns}

abbrev seen : Bytes → Status
seen s = record {
  state = s;
  kind = codes "drop";
  created_at = 1;
  expires_at = 90;
  uploaded_at = 0;
  fetched_at = 0;
  opened_at = 0;
  revoked_at = 0;
}

abbrev turns : List Turn
turns =
    record { now = 5; answer = failed broken; ended = false; ended_in_pause = false }
    ∷ record {
      now = 7;
      answer = answered (seen (codes "created"));
      ended = false;
      ended_in_pause = false;
    }
    ∷ record {
      now = 9;
      answer = answered (seen (codes "uploaded"));
      ended = false;
      ended_in_pause = false;
    }
    ∷ record { now = 20; answer = failed broken; ended = false; ended_in_pause = false }
    ∷ []

wait_runs : wait_while (codes "created") 20 none 0 turns ≡ some (changed (seen (codes "uploaded")))
unfolding wait_while bytes_eq
wait_runs = refl

wait_while-returns_example :
    (w : Waited) × (wait_while (codes "created") 20 none 0 turns ≡ some w)
    × IsRight (codes "created") w
wait_while-returns_example =
    wait_while-returns (codes "created") 20 none 0 turns tt (inr (inr (inr (inl (omega arith)))))
