-- ===== src/Bundle/Lifecycle/Sound.antt =====
-- The effect of one row of sessions.jsonl on the counts of its channel.
use test_exchanges_helper.Base.{
  ℕ, suc, ◌+◌, ◌≤◌, ◌≡◌, refl, sym, ◌∙◌, ap, Bool, true, false, not, ◌&&◌, ◌||◌, List, [], ◌∷◌,
  Option, none, some, Bytes, bytes_eq, codes, ltb, ◌==◌, length, length-append, Result, ok, err,
  if_ok, ok_injective, err_not_ok, if◌then◌else◌, arith,
}
use mathlib.Core.Path.{subst}
use test_exchanges_helper.Bundle.Lifecycle.{
  ChannelLifecycle, channel_of, set_channel, Generation, holds_generation, Observed, has_value,
  push_duration, connect_generation, read_connected, read_disconnected, count_row,
  maximum_session_rows,
}

abbrev pub same_side : Bool → Bool → Bool
same_side true b = b
same_side false b = not b

-- The generations behind the first of a round that connected on a side of the pair.
unfoldable pub reconnected : Bytes → Bool → List Generation → ℕ
reconnected standard side [] = 0
reconnected standard side ((round, (channel, generation)) ∷ connected) =
    let others = reconnected standard side connected in
    if same_side side (bytes_eq channel standard) && ltb 1 generation then suc others else others

-- No generation twice, and each from one to three.
unfoldable pub AreGenerations : List Generation → Type 0
AreGenerations [] = Unit
AreGenerations ((round, (channel, generation)) ∷ connected) =
    (1 ≤ generation)
    × (generation ≤ 3)
    × (holds_generation (round, (channel, generation)) connected ≡ false)
    × AreGenerations connected

-- A channel whose rows exceed its disconnects and its reconnections by a slack, and whose
-- reconnections are those of the generations.
pub record Counted (connected slack : ℕ) (metrics : ChannelLifecycle) : Type 0 where
  pub bounded : metrics.disconnects + length metrics.reconnect_durations + slack ≤ metrics.rows
  pub connections : length metrics.reconnect_durations ≡ connected

pub record Sound (standard : Bytes) (left slack_standard slack_aws : ℕ) (observed : Observed)
    : Type 0 where
  pub on_standard :
      Counted
        (reconnected standard true observed.connected_generations)
        slack_standard
        observed.lifecycle.standard
  pub on_aws :
      Counted
        (reconnected standard false observed.connected_generations)
        slack_aws
        observed.lifecycle.aws
  pub within :
      observed.lifecycle.standard.rows + observed.lifecycle.aws.rows + left ≤ maximum_session_rows
  pub generations : AreGenerations observed.connected_generations

abbrev pub slack_of : Bool → Bool → ℕ
slack_of true true = 1
slack_of false false = 1
slack_of _ _ = 0

-- With room for one more on the side of a row, unless it is taken.
abbrev pub Open : Bytes → ℕ → Bool → Bool → Observed → Type 0
Open standard left side taken observed =
    Sound standard left (if taken then 0 else slack_of side true)
      (if taken then 0 else slack_of side false) observed

Counted-less : {n slack : ℕ} {m : ChannelLifecycle} → Counted n slack m → Counted n 0 m
Counted-less c = record { bounded = omega (arith, c.bounded); connections = c.connections }

pub closed-Sound :
    {standard : Bytes} {left s a : ℕ} {o : Observed}
    → Sound standard left s a o
    → Sound standard left 0 0 o
closed-Sound v = record {
  on_standard = Counted-less v.on_standard;
  on_aws = Counted-less v.on_aws;
  within = v.within;
  generations = v.generations;
}

pub less-Sound :
    {standard : Bytes} {left s a : ℕ} {o : Observed}
    → Sound standard (suc left) s a o
    → Sound standard left s a o
less-Sound v = record {
  on_standard = v.on_standard;
  on_aws = v.on_aws;
  within = omega (arith, v.within);
  generations = v.generations;
}

pub count_row-Open :
    (standard : Bytes) (left : ℕ) (side legacy : Bool) (o : Observed)
    → Sound standard (suc left) 0 0 o
    → Open standard left side false (count_row side legacy o)
unfolding count_row
count_row-Open standard left true legacy o v = record {
  on_standard = record {
    bounded = omega (arith, v.on_standard.bounded);
    connections = v.on_standard.connections;
  };
  on_aws = v.on_aws;
  within = omega (arith, v.within);
  generations = v.generations;
}
count_row-Open standard left false legacy o v = record {
  on_standard = v.on_standard;
  on_aws = record { bounded = omega (arith, v.on_aws.bounded); connections = v.on_aws.connections };
  within = omega (arith, v.within);
  generations = v.generations;
}

push_duration-Counted :
    (n : ℕ) (duration : Option ℕ) (m : ChannelLifecycle)
    → Counted n 1 m
    → Counted (if has_value duration then suc n else n) 0 (push_duration duration m)
unfolding push_duration
push_duration-Counted n none m c = Counted-less c
push_duration-Counted n (some duration) m c = record {
  bounded = omega (arith, c.bounded, length-append m.reconnect_durations (duration ∷ []));
  connections = omega (arith, c.connections, length-append m.reconnect_durations (duration ∷ []));
}

push_duration-rows :
    (duration : Option ℕ) (m : ChannelLifecycle) → (push_duration duration m).rows ≡ m.rows
unfolding push_duration
push_duration-rows none m = refl
push_duration-rows (some duration) m = refl

-- A generation has a duration exactly where it is behind the first.
duration_iff :
    (succeeded : Bool) (generation : ℕ) (present : Bool)
    → 1 ≤ generation
    → (not succeeded || generation == 1 && present || ltb 1 generation && not present) ≡ false
    → (succeeded ≡ true) × (ltb 1 generation ≡ present)
duration_iff succeeded generation present b h = ground arith

reconnected-cons :
    (standard : Bytes) (side' side reconnects : Bool) (round : ℕ) (channel : Bytes) (generation : ℕ)
    (connected : List Generation)
    → bytes_eq channel standard ≡ side
    → ltb 1 generation ≡ reconnects
    → (if same_side side' side && reconnects
        then suc (reconnected standard side' connected)
        else reconnected standard side' connected)
      ≡ reconnected standard side' ((round, (channel, generation)) ∷ connected)
unfolding reconnected
reconnected-cons standard side' side reconnects round channel generation connected e p =
    let n = reconnected standard side' connected in
    sym (
      ap (λ b. if same_side side' b && ltb 1 generation then suc n else n) e
      ∙ ap (λ b. if same_side side' side && b then suc n else n) p)

-- A generation with its duration is stored on the side of its channel.
store_generation-Sound :
    (standard : Bytes) (left : ℕ) (side : Bool) (round : ℕ) (channel : Bytes) (generation : ℕ)
    (duration : Option ℕ) (o : Observed)
    → bytes_eq channel standard ≡ side
    → ltb 1 generation ≡ has_value duration
    → AreGenerations ((round, (channel, generation)) ∷ o.connected_generations)
    → Open standard left side false o
    → Sound standard left 0 0 (record {
      lifecycle =
          set_channel side (push_duration duration (channel_of side o.lifecycle)) o.lifecycle;
      connected_generations = (round, (channel, generation)) ∷ o.connected_generations;
    })
store_generation-Sound standard left true round channel generation duration o e p g v = record {
  on_standard =
      subst (λ n. Counted n 0 (push_duration duration o.lifecycle.standard))
        (reconnected-cons standard true true (has_value duration) round channel generation
          o.connected_generations e p)
        (push_duration-Counted _ duration o.lifecycle.standard v.on_standard);
  on_aws =
      subst (λ n. Counted n 0 o.lifecycle.aws)
        (reconnected-cons standard false true (has_value duration) round channel generation
          o.connected_generations e p)
        v.on_aws;
  within = omega (arith, v.within, push_duration-rows duration o.lifecycle.standard);
  generations = g;
}
store_generation-Sound standard left false round channel generation duration o e p g v = record {
  on_standard =
      subst (λ n. Counted n 0 o.lifecycle.standard)
        (reconnected-cons standard true false (has_value duration) round channel generation
          o.connected_generations e p)
        v.on_standard;
  on_aws =
      subst (λ n. Counted n 0 (push_duration duration o.lifecycle.aws))
        (reconnected-cons standard false false (has_value duration) round channel generation
          o.connected_generations e p)
        (push_duration-Counted _ duration o.lifecycle.aws v.on_aws);
  within = omega (arith, v.within, push_duration-rows duration o.lifecycle.aws);
  generations = g;
}

taken-Open :
    (standard : Bytes) (left : ℕ) (side taken : Bool) (o : Observed)
    → Open standard left side false o
    → Open standard left side taken o
taken-Open standard left side true o v = closed-Sound v
taken-Open standard left side false o v = v

-- A row of a generation from one to three, on the side of its channel.
module _ (standard : Bytes) (left : ℕ) (stage : Bytes) (succeeded : Bool) (round : ℕ)
    (channel : Bytes) (generation : ℕ) (duration : Option ℕ) (least : 1 ≤ generation)
    (most : generation ≤ 3) where
  abbrev side : Bool
  side = bytes_eq channel standard

  connect_generation-Open :
      (o next : Observed)
      → Open standard left side false o
      → connect_generation side succeeded round channel generation duration o ≡ ok next
      → Open standard left side succeeded next
  unfolding connect_generation AreGenerations
  connect_generation-Open o next v h =
      let (metadata, h1) = if_ok _ _ _ h in
      let (new, h2) = if_ok _ _ _ h1 in
      let (success, behind) =
        duration_iff succeeded generation (has_value duration) least metadata in
      let stored =
        store_generation-Sound standard left side round channel generation duration o refl behind
          (least, most, new, v.generations) v in
      subst (λ b. Open standard left side b next) (sym success)
        (subst (λ n. Sound standard left 0 0 n) (ok_injective h2) stored)

  pub read_connected-Open :
      (o next : Observed)
      → Open standard left side false o
      → read_connected stage side succeeded round channel generation duration o ≡ ok next
      → Open standard left side succeeded next
  unfolding read_connected
  read_connected-Open o next v =
      branches (bytes_eq stage (codes "connected")) (connect_generation-Open o next v) (λ h.
        let (none_there, same) = if_ok _ _ _ h in
        subst (λ n. Open standard left side succeeded n) (ok_injective same)
          (taken-Open standard left side succeeded o v))
    where
      branches :
          (b : Bool) {x y : Result Observed}
          → (x ≡ ok next → Open standard left side succeeded next)
          → (y ≡ ok next → Open standard left side succeeded next)
          → (if b then x else y) ≡ ok next
          → Open standard left side succeeded next
      branches true f g h = f h
      branches false f g h = g h

disconnected-Sound :
    (standard : Bytes) (left : ℕ) (side : Bool) (o : Observed)
    → Open standard left side false o
    → Sound standard left 0 0 (record o {
      lifecycle =
          set_channel side
            (record (channel_of side o.lifecycle) {
              disconnects = suc (channel_of side o.lifecycle).disconnects;
            })
            o.lifecycle;
    })
disconnected-Sound standard left true o v = record {
  on_standard = record {
    bounded = omega (arith, v.on_standard.bounded);
    connections = v.on_standard.connections;
  };
  on_aws = v.on_aws;
  within = v.within;
  generations = v.generations;
}
disconnected-Sound standard left false o v = record {
  on_standard = v.on_standard;
  on_aws = record { bounded = omega (arith, v.on_aws.bounded); connections = v.on_aws.connections };
  within = v.within;
  generations = v.generations;
}

pub read_disconnected-Sound :
    (standard : Bytes) (left : ℕ) (stage : Bytes) (side succeeded : Bool) (o next : Observed)
    → Open standard left side succeeded o
    → read_disconnected stage side succeeded o ≡ ok next
    → Sound standard left 0 0 next
unfolding read_disconnected
read_disconnected-Sound standard left stage side succeeded o next v =
    branches (not (bytes_eq stage (codes "disconnected"))) succeeded v
  where
    branches :
        (b taken : Bool)
        → Open standard left side taken o
        → (if b
            then ok o
            else if taken
            then err "sessions_disconnected_metadata_invalid"
            else ok (record o {
              lifecycle =
                  set_channel side
                    (record (channel_of side o.lifecycle) {
                      disconnects = suc (channel_of side o.lifecycle).disconnects;
                    })
                    o.lifecycle;
            }))
          ≡ ok next
        → Sound standard left 0 0 next
    branches true taken w h =
        subst (λ n. Sound standard left 0 0 n) (ok_injective h) (closed-Sound w)
    branches false true w h = absurd (err_not_ok h)
    branches false false w h =
        subst (λ n. Sound standard left 0 0 n) (ok_injective h)
          (disconnected-Sound standard left side o w)
