-- ===== src/Broadcast/Pipeline/Network.antt =====
-- The pipeline owns the network once while it is connected, and never else.
use cheetah_media_engine.Prelude.{
  ℕ, if_elim, ◌-◌, ◌<◌, ◌≡◌, refl, ap, ◌∙◌, String, Bool, true, false, not, List, [], ◌∷◌, length,
  length-set, get_or-set_self, ◌==◌, arith, sat_add,
}
use cheetah_media_engine.Types.Error.{ok, err}
use cheetah_media_engine.Engine.Resource.{ResourceLedger, acquire, release, network, idx, count}
use cheetah_media_engine.Broadcast.Pipeline.Keeps.{
  After, bind-After, After-left, call-After, tick-Stays,
}
use cheetah_media_engine.Broadcast.Pipeline.{
  BroadcastPipeline, Devices, Answered, ◌>>=◌, call, mark_connected, connect, start, stop, tick,
}

abbrev pub ones : Bool → ℕ
ones true = 1
ones false = 0

abbrev pub IsBalanced : {D : Type 0} → BroadcastPipeline D → Type 0
IsBalanced p =
    (count p.resources network ≡ ones p.connected) × (idx network < length p.resources.counts)

acquired :
    (l : ResourceLedger)
    → count l network ≡ 0
    → idx network < length l.counts
    → (count (acquire l network) network ≡ 1) × (idx network < length (acquire l network).counts)
unfolding acquire
acquired l z h = (
  get_or-set_self l.counts 0 (sat_add (count l network) 1) 0 h ∙ omega arith,
  omega (arith, length-set l.counts 0 (sat_add (count l network) 1)),
)

released :
    (l : ResourceLedger)
    → count l network ≡ 1
    → idx network < length l.counts
    → (count (release l network).0 network ≡ 0)
      × (idx network < length (release l network).0.counts)
unfolding release
released l o h =
    let t : (count l network == 0) ≡ false = ground arith in
    rw t (
      get_or-set_self l.counts 0 (count l network - 1) 0 h ∙ omega arith,
      omega (arith, length-set l.counts 0 (count l network - 1)),
    )

mark_connected-IsBalanced :
    {D : Type 0} (p : BroadcastPipeline D) → IsBalanced p → IsBalanced (mark_connected p)
mark_connected-IsBalanced p i =
    if_elim IsBalanced p.connected (λ e. i) (λ e. acquired p.resources (i.0 ∙ ap ones e) i.1)

-- Started or not, connected or not, and balanced.
abbrev pub IsHeld : {D : Type 0} → Bool → Bool → BroadcastPipeline D → Type 0
IsHeld s c p = (p.started ≡ s) × (p.connected ≡ c) × IsBalanced p

mark_connected-IsHeld :
    {D : Type 0} (s : Bool) (p : BroadcastPipeline D)
    → (p.started ≡ s) × IsBalanced p
    → IsHeld s true (mark_connected p)
mark_connected-IsHeld s p i =
    if_elim (IsHeld s true) p.connected (λ e. (i.0, e, i.1))
      (λ e. (i.0, refl, acquired p.resources (i.1.0 ∙ ap ones e) i.1.1))

module _ {D F : Type 0} (dv : Devices D F) where
  -- A connected pipeline owns the network, and a failure changes no flag.
  pub connect-After :
      (s : Bool) (p : BroadcastPipeline D) (url : String)
      → (p.started ≡ s) × IsBalanced p
      → After (IsHeld s true) (λ q. (q.started ≡ s) × IsBalanced q) (connect dv p url)
  unfolding connect
  connect-After s p url i =
      let r = dv.publisher_connect p.devices url in
      bind-After (λ q. (q.started ≡ s) × IsBalanced q) (IsHeld s true)
        (λ q. (q.started ≡ s) × IsBalanced q) (call p r) (λ x q. (mark_connected q, ok tt))
        (call-After (λ q. (q.started ≡ s) × IsBalanced q) p r i)
        (λ x q j. mark_connected-IsHeld s q j)

  abbrev IsOpen : BroadcastPipeline D → Type 0
  IsOpen q = (q.connected ≡ true) × IsBalanced q

  configure-After :
      (p : BroadcastPipeline D)
      → IsOpen p
      → After (IsHeld true true) IsOpen (
          call p (dv.configure p.devices p.config.codec p.config.width p.config.height p.config.fps)
          >>= λ x q. (record q { started = true }, ok tt))
  configure-After p i =
      let r = dv.configure p.devices p.config.codec p.config.width p.config.height p.config.fps in
      bind-After IsOpen (IsHeld true true) IsOpen (call p r)
        (λ x q. (record q { started = true }, ok tt)) (call-After IsOpen p r i)
        (λ x q j. (refl, j.0, j.1))

  begin-After :
      (p : BroadcastPipeline D)
      → IsOpen p
      → After (IsHeld true true) IsOpen (
          call p (dv.source_start p.devices) >>= λ x q.
          call q (dv.configure q.devices q.config.codec q.config.width q.config.height q.config.fps)
          >>= λ x q. (record q { started = true }, ok tt))
  begin-After p i =
      let r = dv.source_start p.devices in
      bind-After IsOpen (IsHeld true true) IsOpen (call p r)
        (λ x q.
          call q (dv.configure q.devices q.config.codec q.config.width q.config.height q.config.fps)
          >>= λ x q. (record q { started = true }, ok tt))
        (call-After IsOpen p r i) (λ x q j. configure-After q j)

  After-weaker :
      {A : Type 0} (G W V : BroadcastPipeline D → Type 0) (r : Answered D A)
      → After G W r
      → ((p : BroadcastPipeline D) → W p → V p)
      → After G V r
  After-weaker G W V (p, ok a) i f = i
  After-weaker G W V (p, err e) i f = f p i

  pub start-After :
      (p : BroadcastPipeline D) → IsBalanced p → After (IsHeld true true) IsBalanced (start dv p)
  unfolding start
  start-After p i =
      if_elim (λ (r : Answered D (Unit {0})). After (IsHeld true true) IsBalanced r)
        (not p.connected) (λ e. i)
        (λ e.
          After-weaker (IsHeld true true) IsOpen IsBalanced
            (call p (dv.source_start p.devices) >>= λ x q.
              call q
                (dv.configure q.devices q.config.codec q.config.width q.config.height q.config.fps)
              >>= λ x q. (record q { started = true }, ok tt))
            (begin-After p (ground arith, i)) (λ q j. j.1))

  pub stop-IsHeld : (p : BroadcastPipeline D) → IsBalanced p → IsHeld false false (stop dv p)
  unfolding stop
  stop-IsHeld p i = (
    refl,
    refl,
    if_elim (λ (l : ResourceLedger). (count l network ≡ 0) × (idx network < length l.counts))
        p.connected (λ e. released p.resources (i.0 ∙ ap ones e) i.1) (λ e. (i.0 ∙ ap ones e, i.1)),
  )

  pub tick-After :
      (p : BroadcastPipeline D)
      → IsHeld true true p
      → After (IsHeld true true) (IsHeld true true) (tick dv p)
  tick-After p i =
      tick-Stays dv
        (λ l s c.
          (s ≡ true) × (c ≡ true) × ((count l network ≡ ones c) × (idx network < length l.counts)))
        p i

  tick-IsBalanced : (p : BroadcastPipeline D) → IsBalanced p → IsBalanced (tick dv p).0
  tick-IsBalanced p i =
      After-left IsBalanced IsBalanced IsBalanced (tick dv p)
        (tick-Stays dv (λ l s c. (count l network ≡ ones c) × (idx network < length l.counts)) p i)
        (λ q j. j) (λ q j. j)

-- The operations of a pipeline.
pub data PipelineStep : Type 0 where
  connect_to : String → PipelineStep
  start_now stop_now tick_now : PipelineStep

abbrev pub take_step :
    {D : Type 0} {F : Type 0}
    → Devices D F
    → BroadcastPipeline D
    → PipelineStep
    → BroadcastPipeline D
take_step dv p (connect_to url) = (connect dv p url).0
take_step dv p start_now = (start dv p).0
take_step dv p stop_now = stop dv p
take_step dv p tick_now = (tick dv p).0

abbrev pub take_steps :
    {D : Type 0} {F : Type 0}
    → Devices D F
    → BroadcastPipeline D
    → List PipelineStep
    → BroadcastPipeline D
take_steps dv p [] = p
take_steps dv p (s ∷ ss) = take_steps dv (take_step dv p s) ss

module _ {D : Type 0} {F : Type 0} (dv : Devices D F) where
  take_step-IsBalanced :
      (p : BroadcastPipeline D) (s : PipelineStep) → IsBalanced p → IsBalanced (take_step dv p s)
  take_step-IsBalanced p (connect_to url) i =
      After-left (IsHeld p.started true) (λ q. (q.started ≡ p.started) × IsBalanced q) IsBalanced
        (connect dv p url) (connect-After dv p.started p url (refl, i)) (λ q j. j.2) (λ q j. j.1)
  take_step-IsBalanced p start_now i =
      After-left (IsHeld true true) IsBalanced IsBalanced (start dv p) (start-After dv p i)
        (λ q j. j.2) (λ q j. j)
  take_step-IsBalanced p stop_now i = (stop-IsHeld dv p i).2
  take_step-IsBalanced p tick_now i = tick-IsBalanced dv p i

  -- After any operations, failed ones included and whatever the devices answer, a pipeline owns
  -- the network once if it is connected, and not at all if it is not.
  pub take_steps-IsBalanced :
      (p : BroadcastPipeline D) (ss : List PipelineStep)
      → IsBalanced p
      → IsBalanced (take_steps dv p ss)
  take_steps-IsBalanced p [] i = i
  take_steps-IsBalanced p (s ∷ ss) i =
      take_steps-IsBalanced (take_step dv p s) ss (take_step-IsBalanced p s i)
