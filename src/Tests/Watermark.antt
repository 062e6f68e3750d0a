-- ===== src/Tests/Watermark.antt =====
-- The watermark on concrete data.
use notestr.Prelude.{ℕ, ◌≡◌, ◌⊎◌, ◌≤◌, refl, Text, lit, none, some, true, List, [], find, All}
use notestr.Engine.Types.{AppendFactResult}
use notestr.Engine.World.{World, stale}
use notestr.Engine.Handlers.{handle_skipped}
use notestr.Engine.Watermark.{handle_skipped-passes}
use notestr.Persistence.{append_fact, stored_facts, load_accepted_events}
use notestr.Persistence.RawLog.{has_id}
use notestr.Tests.{group}
use notestr.Tests.Stores.{input_of, one_fact, one_fact-IsLog}
use notestr.Tests.Sessions.{busy_world}

-- The log holds a fact whose event is not accepted.
abbrev unaccepted_world : World
unaccepted_world = record busy_world { disk = one_fact; schedule = [] }

one_fact-fresh : find (has_id (lit "f2")) (stored_facts one_fact group) ≡ none
unfolding find stored_facts notestr.Prelude.Dict.get notestr.Prelude.same
    notestr.Engine.Types.raw_facts_key
one_fact-fresh = refl

handle_skipped-passes_example :
    let w' = (handle_skipped (input_of (lit "f2")) 1 unaccepted_world).1 in
    ((w'.last_ingested_seq ≡ unaccepted_world.last_ingested_seq)
      × ((w'.disk ≡ one_fact) ⊎ (stale 1 w' ≡ true)))
    ⊎ ((a : AppendFactResult) × (append_fact one_fact (input_of (lit "f2")) ≡ some (a, w'.disk))
        × (a.fact.seq ≤ w'.last_ingested_seq)
        × All (λ f. f.seq ≤ w'.last_ingested_seq) (stored_facts one_fact group)
        × ((g : Text) → load_accepted_events w'.disk g ≡ load_accepted_events one_fact g))
handle_skipped-passes_example =
    handle_skipped-passes (input_of (lit "f2")) 1 unaccepted_world one_fact-IsLog one_fact-fresh

-- Here the watermark moves to the second fact, past the first.
handle_skipped-unaccepted :
    (handle_skipped (input_of (lit "f2")) 1 unaccepted_world).1.last_ingested_seq ≡ 2
unfolding handle_skipped notestr.Engine.World.◌>>=◌ notestr.Persistence.append_fact
    notestr.Engine.World.pass notestr.Engine.Writes.unmark_failing
    notestr.Persistence.append_fact_update find stored_facts notestr.Prelude.Dict.get
    notestr.Prelude.same notestr.Engine.Types.raw_facts_key notestr.Persistence.next_seq
handle_skipped-unaccepted = refl
