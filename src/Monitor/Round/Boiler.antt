-- ===== src/Monitor/Round/Boiler.antt =====
-- monitor/monitor.go over nbe/nbe.go against nbe/mock_boiler.go: rounds of a settings monitor on
-- the settings of the simulated boiler.
use boiler_mate.Prelude.{
  ℕ, ◌+◌, ◌%◌, ◌≤◌, ◌≡◌, refl, ◌∙◌, ap, false, [], ◌++◌, Bytes, codes, arith, length, length-append,
  All, some, ◌==◌, bytes_eq,
}
use boiler_mate.Prelude.Int.{pos}
use boiler_mate.Go.Map.{Map, lookup, KeysNe}
use boiler_mate.Nbe.Types.{Runtime, Scalar}
use boiler_mate.Nbe.Payload.{serialize_payload}
use boiler_mate.Nbe.Payload.RoundTrip.{IsWritable, reread, reread-KeysNe}
use boiler_mate.Nbe.Mock.{or_empty, MockBoiler, as_payload, process_request}
use boiler_mate.Nbe.Mock.Category.{get_data-star}
use boiler_mate.Nbe.Client.{Nbe, Call}
use boiler_mate.Nbe.Types.{get_setup_function}
use boiler_mate.Nbe.Client.{get_request}
use boiler_mate.Nbe.Client.Connect.{exchange}
use boiler_mate.Nbe.Client.Connect.Boiler.{boiler_network}
use boiler_mate.Nbe.Client.Connect.Ready.{IsReady, Works, made}
use boiler_mate.Nbe.Client.Connect.Plain.{send-answer}
use boiler_mate.Monitor.{
  Outcome, ok, Value, Libraries, IsEqual, Monitor, settings_response, operating_response,
}
use boiler_mate.Monitor.Changes.{changed, settings_response-changes}
use boiler_mate.Monitor.Changes.Repeats.{settings_response-again}
use boiler_mate.Monitor.Round.{settings_round, operating_round, round, called_back}

-- A category whose path with a star fits a request.
abbrev pub IsCategory : Bytes → Type 0
IsCategory category = ((category == codes "*") ≡ false) × (length category ≤ 900)

-- A client behind one more request that was answered.
abbrev pub next : {C : Type 0} → Nbe C → ℕ → Nbe C
next nbe n = record nbe { seq_no = pos ((n + 1) % 100); queue = [] }

-- What the simulated boiler's entries are when their texts are read.
abbrev pub entries_read : {F : Type 0} → Runtime F → Map Bytes (Scalar F) → Map Bytes (Value F)
entries_read runtime entries = reread runtime (as_payload entries)

module _ {F : Type 0} (runtime : Runtime F) (category : Bytes) where
  -- The simulated boiler has the category, with entries that fit a response and can be written.
  pub record Holds (mb : MockBoiler F) (entries : Map Bytes (Scalar F)) : Type 0 where
    pub found_entries : lookup category mb.settings ≡ some entries
    pub writable : All (IsWritable runtime) (as_payload entries)
    pub keys_ne : KeysNe (as_payload entries)
    pub short_payload : length (serialize_payload runtime (as_payload entries)) ≤ 996

module _ {F C : Type 0} (runtime : Runtime F) (call : Call) (cb : C) (nbe : Nbe C)
    (mb : MockBoiler F) {n seconds : ℕ} (ready : IsReady runtime nbe n)
    (works : Works runtime call seconds) where
  pub IsReady-next : IsReady runtime (next nbe n) ((n + 1) % 100)
  IsReady-next = record {
    app_ascii = ready.app_ascii;
    app_full = ready.app_full;
    controller_ascii = ready.controller_ascii;
    controller_full = ready.controller_full;
    seq_no_is = refl;
    seq_no_two = omega arith;
    queue_empty = refl;
  }

  -- The request for a category is answered with its entries, as their texts are read.
  pub exchange-category :
      (category : Bytes) (entries : Map Bytes (Scalar F))
      → IsCategory category
      → Holds runtime category mb entries
      → exchange runtime
          (boiler_network runtime)
          call
          (get_request nbe get_setup_function (category ++ codes ".*"))
          cb
          nbe
          mb
        ≡ (
          next nbe n,
          mb,
          ok (some (cb, made runtime nbe n (pos 1) (entries_read runtime entries))),
        )
  unfolding process_request
  exchange-category category entries is holds =
      (send-answer runtime call cb nbe mb ready works 1 (omega arith) (category ++ codes ".*")
        (omega (arith, length-append category (codes ".*")))
        (omega (arith, length-append category (codes ".*"), is.1)) mb (as_payload entries)
        (ap (λ d. (mb, made runtime nbe n (pos 1) (as_payload d)))
          (get_data-star category mb.settings is.0 holds.found_entries))
        refl refl holds.writable holds.keys_ne holds.short_payload).1

  module _ {R : Type 0} (libraries : Libraries F R) (m : Monitor F R)
      (entries : Map Bytes (Scalar F)) where
    -- A settings monitor's callback is given the entries of its category.
    pub settings_round-boiler :
        (category : Bytes)
        → IsCategory category
        → Holds runtime category mb entries
        → settings_round runtime (boiler_network runtime) libraries category call cb nbe mb m ≡ (
          next nbe n,
          mb,
          ok (settings_response libraries category (entries_read runtime entries) m),
        )
    unfolding round called_back
    settings_round-boiler category is holds =
        ap
          (λ done. (
            done.0,
            done.1,
            called_back (λ payload m'. ok (settings_response libraries category payload m')) done.2
                m,
          ))
          (exchange-category category entries is holds)

    -- The operating data monitor's callback is given the entries of `operating`.
    pub operating_round-boiler :
        Holds runtime (codes "operating") mb entries
        → operating_round runtime (boiler_network runtime) libraries call cb nbe mb m
          ≡ (next nbe n, mb, operating_response libraries (entries_read runtime entries) m)
    unfolding round called_back process_request
    operating_round-boiler holds =
        let answer =
          (send-answer runtime call cb nbe mb ready works 4 (omega arith) (codes "*") (omega arith)
            (omega arith) mb (as_payload entries)
            (ap (λ d. (mb, made runtime nbe n (pos 4) (as_payload (or_empty d))))
              holds.found_entries)
            refl refl holds.writable holds.keys_ne holds.short_payload).1 in
        ap (λ done. (done.0, done.1, called_back (operating_response libraries) done.2 m)) answer

module _ {F R C : Type 0} (libraries : Libraries F R) (runtime : Runtime F) (category : Bytes) where
  -- A round of the settings monitor on the simulated boiler.
  abbrev pub boiler_round :
      Call
      → C
      → Nbe C
      → MockBoiler F
      → Monitor F R
      → Nbe C × MockBoiler F × Outcome (Monitor F R × Map Bytes (Value F))
  boiler_round = settings_round runtime (boiler_network runtime) libraries category

  -- A round of a settings monitor on a category of the simulated boiler, over a network that works,
  -- ends without a panic, with the client free for the next round and the boiler as it was, and
  -- publishes at each key the boiler's entry, as its text is read, unless the monitor's cache holds
  -- an equal one. The category is not the star and has at most 900 bytes; its entries have
  -- different plain keys, no semicolon, and fit one response.
  pub settings_round-changes :
      (call : Call) (cb : C) (nbe : Nbe C) (mb : MockBoiler F) (m : Monitor F R)
      (entries : Map Bytes (Scalar F)) {n seconds : ℕ}
      → IsReady runtime nbe n
      → Works runtime call seconds
      → IsCategory category
      → Holds runtime category mb entries
      → IsReady runtime (next nbe n) ((n + 1) % 100)
        × (m' : Monitor F R) × (changes : Map Bytes (Value F)) × (boiler_round call cb nbe mb m
            ≡ (next nbe n, mb, ok (m', changes)))
        × ((k : Bytes)
            → lookup k changes
              ≡ changed libraries category m k (lookup k (entries_read runtime entries)))
  settings_round-changes call cb nbe mb m entries ready works is holds =
      let payload = entries_read runtime entries in
      (
        IsReady-next runtime call cb nbe mb ready works,
        (settings_response libraries category payload m).0,
        (settings_response libraries category payload m).1,
        settings_round-boiler runtime call cb nbe mb ready works libraries m entries category is
            holds,
        λ k.
            settings_response-changes libraries category payload m k
              (reread-KeysNe runtime (as_payload entries) holds.keys_ne),
      )

  -- When cmp.Equal behaves as documented, two consecutive rounds of a settings monitor on the same
  -- settings of the simulated boiler publish nothing in the second, under the conditions of one
  -- round.
  pub settings_round-again :
      IsEqual libraries
      → (call call' : Call) (cb cb' : C) (nbe : Nbe C) (mb : MockBoiler F) (m : Monitor F R)
        (entries : Map Bytes (Scalar F)) {n seconds seconds' : ℕ}
      → IsReady runtime nbe n
      → Works runtime call seconds
      → Works runtime call' seconds'
      → IsCategory category
      → Holds runtime category mb entries
      → (m' m'' : Monitor F R) × (changes : Map Bytes (Value F)) × (boiler_round call cb nbe mb m
          ≡ (next nbe n, mb, ok (m', changes)))
        × (boiler_round call' cb' (next nbe n) mb m'
            ≡ (next (next nbe n) ((n + 1) % 100), mb, ok (m'', [])))
  settings_round-again laws call call' cb cb' nbe mb m entries {n = n} ready works works' is holds =
      let payload = entries_read runtime entries in
      let keys = reread-KeysNe runtime (as_payload entries) holds.keys_ne in
      let m' = (settings_response libraries category payload m).0 in
      let ready' = IsReady-next runtime call cb nbe mb ready works in
      (
        m',
        (settings_response libraries category payload m').0,
        (settings_response libraries category payload m).1,
        settings_round-boiler runtime call cb nbe mb ready works libraries m entries category is
            holds,
        settings_round-boiler runtime call' cb' (next nbe n) mb ready' works' libraries m' entries
              category is holds
            ∙ ap
                (λ changes. (
                  next (next nbe n) ((n + 1) % 100),
                  mb,
                  ok ((settings_response libraries category payload m').0, changes),
                ))
                (settings_response-again libraries category laws payload m keys),
      )
