-- ===== src/App/Bridge/Runs.antt =====
-- cmd/boiler-mate/main.go: any run of commands and rounds, among what the other goroutines and the
-- boiler do.
use boiler_mate.Monitor.Changes.Cache.{settings_response-KeysNe, settings_response-All}
use boiler_mate.Monitor.Published.{messages}
use boiler_mate.Monitor.Round.Boiler.{exchange-category, entries_read, Holds, IsCategory}
use boiler_mate.Nbe.Client.Connect.Ready.{Works, IsReady}
use boiler_mate.Go.Map.{Map, lookup}
use mathlib.Core.Path.{subst}
use boiler_mate.Prelude.{
  true, ℕ, bytes_eq, ◌≡◌, refl, ◌∙◌, sym, ap, [], ◌++◌, Bytes, codes, Option, some, none,
}
use boiler_mate.Nbe.Types.{Scalar, Runtime, Value, get_setup_function}
use boiler_mate.Nbe.Action.{Outcome, ok, err, panic}
use boiler_mate.Nbe.Response.{NbeResponse}
use boiler_mate.Nbe.Response.Keys.{Holding, KeyedOnce}
use boiler_mate.Nbe.Mock.{MockBoiler}
use boiler_mate.Nbe.Client.{Nbe, Call, get_request}
use boiler_mate.Nbe.Client.Connect.Answers.{CalledWith, exchange-CalledWith}
use boiler_mate.Nbe.Client.Connect.Boiler.{boiler_network}
use boiler_mate.Mqtt.{publish_many, Connection}
use boiler_mate.Mqtt.Retained.{publish_many-retained, publish_many_ok-Marshals, IsRetaining}
use boiler_mate.Monitor.{settings_response, Libraries}
use boiler_mate.Monitor.Published.Texts.{IsDocumented, HasText}
use boiler_mate.Monitor.Published.Shown.{
  messages-Marshals, messages-KeysNe, Marshals-HaveTexts, HaveTexts, publish_response-Shows,
  publish_response-prefix,
}
use boiler_mate.App.Bridge.{Monitor, Client, exchange, Bridge, logged, command, polled, poll}
use boiler_mate.App.Bridge.Commands.{IsTopic, HaveAllTexts, IsShown, poll-IsShown}

ok-injective : {A : Type 0} {a b : A} → ok a ≡ ok b → a ≡ b
ok-injective {a = a} e = ap (λ o. elim o [ ok x ↦ x | err x ↦ a | panic ↦ a ]) e

module _ {F R B D : Type 0} (runtime : Runtime F) (libraries : Libraries F R)
    (paho : Connection B D (Value F)) (category : Bytes) where
  pub data Step (b : Bridge F R B D) : Bridge F R B D → Type 0 where
    -- A message on any set topic.
    commanded :
        (call : Call) (topic payload : Bytes) {b' : Bridge F R B D}
        → command runtime libraries paho category call topic payload b ≡ ok b'
        → Step b b'
    -- A round of the category's monitor.
    polled_once :
        (call : Call) {b' : Bridge F R B D}
        → poll runtime libraries paho category call b ≡ ok b'
        → Step b b'
    -- What the other goroutines do to the client, and anyone to the boiler.
    elsewhere :
        (nbe : Nbe (Bytes × Bytes)) (boiler : MockBoiler F)
        → Step b (record b { nbe = nbe; boiler = boiler })

  pub data Reach (b : Bridge F R B D) : Bridge F R B D → Type 0 where
    begin : Reach b b
    later : {c d : Bridge F R B D} → Reach b c → Step c d → Reach b d

  -- In a round with this answer PublishMany returns no error.
  abbrev pub Publishes :
      Outcome (Option ((Bytes × Bytes) × NbeResponse F)) → Monitor F R → Client B D → Type 0
  Publishes (ok (some (cb, response))) monitor client =
      (publish_many paho category
        (messages (settings_response libraries category response.payload monitor).1) client).1
      ≡ true
  Publishes (ok none) monitor client = Unit
  Publishes (err e) monitor client = Unit
  Publishes panic monitor client = Unit

  -- The answer to the request of a round.
  abbrev pub answer_of : Call → Bridge F R B D → Outcome (Option ((Bytes × Bytes) × NbeResponse F))
  answer_of call b =
      (exchange runtime (boiler_network runtime) call
        (get_request b.nbe get_setup_function (category ++ codes ".*")) ([], []) b.nbe b.boiler).2

  -- In no round of the run PublishMany returned an error.
  abbrev pub AllPublished : {b c : Bridge F R B D} → Reach b c → Type 0
  AllPublished begin = Unit
  AllPublished (later before (commanded call topic payload e)) = AllPublished before
  AllPublished (later {c} before (polled_once call e)) =
      AllPublished before × Publishes (answer_of call c) c.monitor c.client
  AllPublished (later before (elsewhere nbe boiler)) = AllPublished before

  logged-ok :
      (o : Outcome (Option ((Bytes × Bytes) × NbeResponse F))) (b b' : Bridge F R B D)
      → logged runtime libraries paho category o b ≡ ok b'
      → b ≡ b'
  unfolding logged
  logged-ok (ok answer) b b' e = ok-injective e
  logged-ok (err x) b b' e = ok-injective e
  logged-ok panic b b' e = cc e

module _ {F R B D : Type 0} (runtime : Runtime F) (libraries : Libraries F R)
    (paho : Connection B D (Value F)) (documented : IsDocumented runtime libraries paho)
    (broker : IsRetaining paho) (category : Bytes) where
  -- The broker shows what the monitor remembers, under the prefix.
  abbrev IsShownUnder : Bytes → Bridge F R B D → Type 0
  IsShownUnder prefix b =
      IsShown runtime libraries paho documented broker category b × (b.client.prefix ≡ prefix)

  -- Where PublishMany returns no error, every change has a text.
  publish_many-HaveTexts :
      (changes : Map Bytes (Value F)) (client : Client B D)
      → (publish_many paho category (messages changes) client).1 ≡ true
      → HaveTexts runtime libraries paho documented broker category changes
  publish_many-HaveTexts changes client published =
      Marshals-HaveTexts runtime libraries paho documented broker category changes
        (publish_many_ok-Marshals paho broker category (messages changes) client published)

  polled-IsShownUnder :
      (prefix : Bytes) (o : Outcome (Option ((Bytes × Bytes) × NbeResponse F)))
      (b b' : Bridge F R B D)
      → Holding (CalledWith KeyedOnce) o
      → Publishes runtime libraries paho category o b.monitor b.client
      → polled runtime libraries paho category o b ≡ ok b'
      → IsShownUnder prefix b
      → IsShownUnder prefix b'
  unfolding polled
  polled-IsShownUnder prefix (ok (some (cb, response))) b b' keys published e (shown, same) =
      let payload = response.payload in
      let texts =
        publish_many-HaveTexts (settings_response libraries category payload b.monitor).1 b.client
          published in
      subst (IsShownUnder prefix) (ok-injective e) (
        publish_response-Shows runtime libraries paho documented broker category payload keys
            b.monitor b.client texts shown,
        publish_response-prefix runtime libraries paho documented broker category payload keys
              b.monitor b.client texts
            ∙ same,
      )
  polled-IsShownUnder prefix (ok none) b b' keys published e shown =
      subst (IsShownUnder prefix) (ok-injective e) shown
  polled-IsShownUnder prefix (err x) b b' keys published e shown =
      subst (IsShownUnder prefix) (ok-injective e) shown
  polled-IsShownUnder prefix panic b b' keys published e shown = cc e

  -- Neither a command nor what happens elsewhere touches the monitor or the broker.
  command-IsShownUnder :
      (prefix : Bytes) (call : Call) (topic payload : Bytes) (b b' : Bridge F R B D)
      → command runtime libraries paho category call topic payload b ≡ ok b'
      → IsShownUnder prefix b
      → IsShownUnder prefix b'
  unfolding command
  command-IsShownUnder prefix call topic payload b b' e shown =
      subst (IsShownUnder prefix) (logged-ok runtime libraries paho category _ _ _ e) shown

  poll-IsShownUnder :
      (prefix : Bytes) (call : Call) (b b' : Bridge F R B D)
      → poll runtime libraries paho category call b ≡ ok b'
      → Publishes runtime libraries paho category
          (answer_of runtime libraries paho category call b)
          b.monitor
          b.client
      → IsShownUnder prefix b
      → IsShownUnder prefix b'
  unfolding poll
  poll-IsShownUnder prefix call b b' e published shown =
      let request = get_request b.nbe get_setup_function (category ++ codes ".*") in
      let done = exchange runtime (boiler_network runtime) call request ([], []) b.nbe b.boiler in
      polled-IsShownUnder prefix done.2 (record b { nbe = done.0; boiler = done.1 }) b'
        (exchange-CalledWith runtime (boiler_network runtime) call request ([], []) b.nbe b.boiler)
        published e shown

  Reach-IsShownUnder :
      {b b' : Bridge F R B D} (prefix : Bytes) (run : Reach runtime libraries paho category b b')
      → AllPublished runtime libraries paho category run
      → IsShownUnder prefix b
      → IsShownUnder prefix b'
  Reach-IsShownUnder prefix begin published shown = shown
  Reach-IsShownUnder prefix (later before (commanded call topic payload e)) published shown =
      command-IsShownUnder prefix call topic payload _ _ e
        (Reach-IsShownUnder prefix before published shown)
  Reach-IsShownUnder prefix (later before (polled_once call e)) (earlier, now) shown =
      poll-IsShownUnder prefix call _ _ e now (Reach-IsShownUnder prefix before earlier shown)
  Reach-IsShownUnder prefix (later before (elsewhere nbe boiler)) published shown =
      Reach-IsShownUnder prefix before published shown

  -- Where the boiler answers and every value of its answer has a text, PublishMany returns no error.
  pub round-Publishes :
      (call : Call) (b : Bridge F R B D) (entries : Map Bytes (Scalar F)) {n seconds : ℕ}
      → IsReady runtime b.nbe n
      → Works runtime call seconds
      → IsCategory category
      → Holds runtime category b.boiler entries
      → HaveAllTexts runtime libraries paho documented broker category entries
      → Publishes runtime libraries paho category
          (answer_of runtime libraries paho category call b)
          b.monitor
          b.client
  round-Publishes call b entries ready works is holds texts =
      let payload = entries_read runtime entries in
      let changes = (settings_response libraries category payload b.monitor).1 in
      let change_texts =
        settings_response-All libraries category (HasText runtime libraries paho documented) payload
          b.monitor texts in
      subst (λ o. Publishes runtime libraries paho category o b.monitor b.client)
        (sym (
          ap (λ done. done.2)
            (exchange-category runtime call ([], []) b.nbe b.boiler ready works category entries is
              holds)))
        (publish_many-retained paho broker category [] (messages changes) b.client
          (messages-KeysNe changes (settings_response-KeysNe libraries category payload b.monitor))
          (messages-Marshals runtime libraries paho documented broker category changes
            change_texts)).0

  -- A monitor that remembers nothing has nothing to show.
  pub empty-IsShown :
      (b : Bridge F R B D)
      → b.monitor.cache ≡ []
      → IsShown runtime libraries paho documented broker category b
  unfolding lookup
  empty-IsShown b empty k v found =
      let none_is : none ≡ some v = sym (ap (lookup k) empty) ∙ found in absurd (cc none_is)

  -- From a monitor whose cache is empty, in every run of messages on set topics, whatever their
  -- topic and payload, of rounds of the category's monitor, whatever the boiler answers, and of
  -- anything that the other goroutines do to the boiler's client and anyone to the boiler, in
  -- which PublishMany never returned an error to the monitor, the broker shows what the monitor
  -- remembers, at each remembered key the value's text, or nothing when that is empty, under the
  -- prefix that the MQTT client started with; a message stays until the next, and cmp.Equal and
  -- json.Marshal are as documented.
  pub Reach-IsShown :
      {b b' : Bridge F R B D} (run : Reach runtime libraries paho category b b')
      → AllPublished runtime libraries paho category run
      → b.monitor.cache ≡ []
      → IsShown runtime libraries paho documented broker category b'
        × (b'.client.prefix ≡ b.client.prefix)
  Reach-IsShown {b} run published empty =
      Reach-IsShownUnder b.client.prefix run published (empty-IsShown b empty, refl)

  -- From a monitor whose cache is empty, after any run of messages on set topics, of rounds in
  -- which PublishMany returned no error, and of anything that the other goroutines do to the
  -- boiler's client and anyone to the boiler, a round of the category's monitor on the simulated
  -- boiler makes the topic of every setting of the category, below the prefix of the start, retain
  -- the boiler's value as its text is read, or nothing when that is empty, and leaves the boiler
  -- as it is: no change is missed. At that round the client waits for nothing and the network
  -- works; the category is not the star and has at most 900 bytes; its entries have different keys
  -- of ASCII characters without capitals, semicolons and equals signs, values without semicolons
  -- that all have a text, which of the values a float alone may lack that is no finite number, and
  -- fit one response; a message stays until the next, and cmp.Equal and json.Marshal are as
  -- documented.
  pub Reach-poll :
      {b b' : Bridge F R B D} (run : Reach runtime libraries paho category b b')
      → AllPublished runtime libraries paho category run
      → b.monitor.cache ≡ []
      → (call : Call) (entries : Map Bytes (Scalar F)) {n seconds : ℕ} → IsReady runtime b'.nbe n
      → Works runtime call seconds
      → IsCategory category
      → Holds runtime category b'.boiler entries
      → HaveAllTexts runtime libraries paho documented broker category entries
      → (b'' : Bridge F R B D) × (poll runtime libraries paho category call b' ≡ ok b'')
        × (b''.boiler ≡ b'.boiler)
        × (b''.client.prefix ≡ b.client.prefix)
        × ((k : Bytes) (v : Value F)
            → lookup k (entries_read runtime entries) ≡ some v
            → IsTopic runtime libraries paho documented broker category k v b'')
  Reach-poll {b} {b'} run published empty call entries ready works is holds texts =
      let (shown, prefix_is) = Reach-IsShown run published empty in
      let (b'', done, nbe_is, boiler_is, same, shown', topics) =
        poll-IsShown runtime libraries paho documented broker category call b' entries ready works
          is holds texts shown in
      (b'', done, boiler_is, same ∙ prefix_is, topics)
