-- ===== src/Tests/Beacon.antt =====
-- The loop of the pulse, and the wait for a reply, on short runs.
use whisp.Prelude.{◌≡◌, inl, inr, refl, ◌∷◌, [], false, some, none, Option, arith, List}
use whisp.CString.{Bytes, codes, pos, strcmp_eq, sprintf}
use whisp.Outcome.{done}
use whisp.Process.{Packet}
use whisp.Serialization.{serialize_data}
use whisp.Discovery.Beacon.{Beacon, Round}
use whisp.Discovery.Beacon.Rate.{Announces}
use whisp.Discovery.Beacon.Rate.Pace.{Paced, discovery_start-Paced}
use whisp.SendAwait.{Poll, send_and_await}
use whisp.SendAwait.Ends.{Comes, sent_to, send_and_await-ends}
use whisp.Tests.World.{settings, started}

abbrev pulse : Packet
pulse = record {
  host = codes "225.1.1.1";
  port = codes "9031";
  payload = codes "GUID:77:COMMAND:PULSE:TPORT:50000:SECUREPORT:42000:PEERAGE:PEER-NULL:";
}

-- A pulse was sent at 10.
abbrev beacon : Beacon
beacon = record {
  interval = pos 5;
  start_t = 10;
  end_t = 0;
  is_exiting = false;
  bgroup = codes "225.1.1.1";
  port = codes "9031";
}

-- The interval is over in the second round, and not yet again in the third.
abbrev rounds : List Round
rounds =
    record { exiting = false; now = 20; later = 20 }
    ∷ record { exiting = false; now = 6_000_010; later = 6_000_011 }
    ∷ record { exiting = false; now = 6_000_012; later = 6_000_012 }
    ∷ []

pulse_text :
    serialize_data
      (settings (codes "GUID"))
      (some (codes "PULSE"))
      (settings (codes "TPORT"))
      (settings (codes "SECUREPORT"))
      (some (codes "PEER-NULL"))
    ≡ done (codes "GUID:77:COMMAND:PULSE:TPORT:50000:SECUREPORT:42000:PEERAGE:PEER-NULL:", 69)
unfolding serialize_data sprintf strcmp_eq
pulse_text = refl

announces : Announces pulse beacon started
announces = record { len = 69; serialized = pulse_text; host = refl; port = refl }

discovery_start-Paced_example : Paced 5 pulse rounds beacon started
discovery_start-Paced_example =
    discovery_start-Paced 5 pulse rounds beacon started announces refl (omega arith)
      (omega arith, omega arith, (omega arith, omega arith, (omega arith, omega arith, tt)))

-- Nothing arrives before the clock has gone on by two seconds.
abbrev polls : List Poll
polls =
    record { arrived = none; now = 1_000_000 }
    ∷ record { arrived = none; now = 3_000_000 }
    ∷ record { arrived = some (codes "late"); now = 3_000_001 }
    ∷ []

send_and_await-ends_example :
    (reply : Option Bytes) × (last : Option Bytes) × (send_and_await
        (some (codes "localhost"))
        (some (codes "9000"))
        (some (codes "hello"))
        (some (codes "9001"))
        2
        500_000
        polls
        none
        started
      ≡ done
          (some (reply, last), sent_to (codes "localhost") (codes "9001") (codes "hello") started))
    × Comes 2 500_000 polls reply last
send_and_await-ends_example =
    send_and_await-ends (codes "localhost") (codes "9000") (codes "hello") (codes "9001") 2 500_000
      polls started (omega arith) (inr (inl (omega arith)))
