-- ===== src/Tests/Bridging.antt =====
-- The outbox bridge on concrete data.
use notestr.Prelude.{
  ℕ, ◌<◌, ◌≡◌, refl, Text, lit, Bool, true, false, Option, none, some, List, [], ◌∷◌, keep, find,
  same, if◌then◌else◌, arith, length, map,
}
use notestr.Prelude.Dict.{get, has, IsMap}
use notestr.Engine.Types.{NostrEvent, outbox_key}
use notestr.Outbox.{max_outbox_entries_per_group, load_outbox}
use notestr.Outbox.Cap.{of_rumor}
use notestr.Outbox.Bridge.{Bridge, is_hooked, notify_outbox_persist, get_outbox_entry}
use notestr.Outbox.Windows.{reconcile_own_echo, h_tag_of}
use notestr.Outbox.Send.{do_attempt_send, load_persisted}
use notestr.Outbox.Send.Attribution.{is_of_tag, sole_id}
use notestr.Outbox.Send.Marks.{attempted}
use notestr.Outbox.Send.Attempt.{publishing, Idle, IsBridge, do_attempt_send-attempted}
use notestr.Outbox.Send.Restart.{EachOnce, restarted, load_persisted-notify}
use notestr.Outbox.Machine.{BridgeCall, starts, fails, echoes_back}
use notestr.Outbox.Echo.{EchoEnds, reconcile_own_echo-EchoEnds}
use notestr.Tests.{group}
use notestr.Tests.Sending.{sending, delivered}

abbrev pub bridge : Bridge
bridge = record {
  entries = (lit "r1", sending) ∷ (lit "r2", record delivered { rumor_id = lit "r2" }) ∷ [];
  hooks = group ∷ [];
  stored = (outbox_key group, sending ∷ []) ∷ [];
  notices = [];
  dispatch_in_flight = [];
  window_state = [];
  expected_by_h_tag = [];
}

abbrev event_of : Text → ℕ → NostrEvent
event_of id kind = record {
  id = id;
  pubkey = lit "p";
  created_at = 1;
  kind = kind;
  tags = (lit "h" ∷ lit "tag" ∷ []) ∷ [];
  content = lit "c";
  sig = lit "s";
}

abbrev one_of_group : List NostrEvent
one_of_group = event_of (lit "n7") 445 ∷ event_of (lit "n8") 1059 ∷ []

bridge-Idle : Idle (lit "tag") bridge
unfolding get
bridge-Idle = record { no_dispatch = refl; no_window = refl; no_expected = refl }

bridge-IsBridge : IsBridge (lit "tag") bridge
bridge-IsBridge = record { dispatch_once = tt; window_once = tt; expected_once = tt }

tracked_sending : get_outbox_entry sending.rumor_id bridge ≡ some sending
unfolding get_outbox_entry get same
tracked_sending = refl

do_attempt_send-attempted_example :
    ((do_attempt_send (lit "tag") sending (publishing one_of_group none 8 9) bridge).0
      ≡ some (attempted none (sole_id (keep (is_of_tag (lit "tag")) one_of_group)) 9 sending))
    × Idle
        (lit "tag")
        (do_attempt_send (lit "tag") sending (publishing one_of_group none 8 9) bridge).1
do_attempt_send-attempted_example =
    do_attempt_send-attempted (lit "tag") sending sending one_of_group none 8 9 bridge refl refl
      tracked_sending bridge-Idle bridge-IsBridge

-- The one kind-445 event of the tag is attributed.
sole_id-one_of_group : sole_id (keep (is_of_tag (lit "tag")) one_of_group) ≡ some (lit "n7")
unfolding keep h_tag_of same
sole_id-one_of_group = refl

bridge-hooked : is_hooked sending.group_id bridge ≡ true
unfolding notestr.Prelude.any same
bridge-hooked = refl

bridge-EachOnce : EachOnce (load_outbox bridge.stored sending.group_id)
unfolding load_outbox get same outbox_key notestr.Prelude.any
bridge-EachOnce = (refl, tt)

bridge-small : length (load_outbox bridge.stored sending.group_id) < max_outbox_entries_per_group
unfolding load_outbox get same outbox_key
bridge-small = omega arith

load_persisted-notify_example :
    get_outbox_entry
      (lit "r1")
      (load_persisted delivered.group_id (restarted (notify_outbox_persist delivered bridge))).1
    ≡ (if same delivered.rumor_id (lit "r1")
        then some delivered
        else find (of_rumor (lit "r1")) (load_outbox bridge.stored delivered.group_id))
load_persisted-notify_example =
    load_persisted-notify delivered (lit "r1") bridge bridge-hooked bridge-EachOnce bridge-small

abbrev a_failed_send : List BridgeCall
a_failed_send =
    starts (lit "r1") 8 ∷ fails (lit "r1") (lit "timeout") 9 ∷ echoes_back (lit "n1") group 10 ∷ []

bridge-IsMap : IsMap bridge.entries
unfolding has same
bridge-IsMap = (refl, (refl, tt))

reconcile_own_echo-EchoEnds_example :
    EchoEnds (lit "n1") group 10 bridge (reconcile_own_echo (lit "n1") group 10 bridge)
reconcile_own_echo-EchoEnds_example =
    reconcile_own_echo-EchoEnds (lit "n1") group 10 bridge bridge-IsMap bridge-hooked
