-- ===== src/Comms/Streaming/Packets.antt =====
-- planning_service/comms/viz_service.cc, `DoStreamConfigurations`: the loop over the packets of a
-- stream and what follows it. Other threads use the hub between two packets.
use planning_service.Prelude.{ℕ, Bool, true, false, List, [], ◌∷◌, ◌≡◌, refl}
use planning_service.Service.Error.{returns}
use planning_service.Service.Action.{Action, pure, resume, ◌>>=◌, ◌>>◌}
use planning_service.Service.Visualizer.{VisualizerHub, Meshcats, clear_streaming_state}
use planning_service.Service.Visualizer.Loading.{is_active}
use planning_service.Service.Visualizer.Configuration.{Configured, accepted, unexpected}
use planning_service.Comms.Status.{Status, status_ok}
use planning_service.Comms.Viz.{SetConfigurationRequest}
use planning_service.Comms.Viz.Start.{do_set_configuration, configured_status}

-- A packet with the time at which it is set, and what the others do to the hub before it is read.
pub record Packet {ℓ} (H Q C : Type ℓ) : Type ℓ where
  pub meanwhile : H → H
  pub now : ℕ
  pub request : SetConfigurationRequest Q C

module _ {ℓ} {A D W Q X C I : Type ℓ} (meshcats : Meshcats A D W Q X C I) where
  -- How the loop goes on from a packet that was set, where `rest` is the loop over the other packets.
  unfoldable pub after_packet :
      Action (VisualizerHub A D W Q X I) Status
      → Configured
      → Action (VisualizerHub A D W Q X I) Status
  after_packet rest accepted = rest
  after_packet rest (unexpected error) = pure (configured_status meshcats (unexpected error))

  -- A packet at the status `active` of the hub, or at another one.
  unfoldable pub take_packet :
      Bool
      → Action (VisualizerHub A D W Q X I) Status
      → ℕ
      → SetConfigurationRequest Q C
      → Action (VisualizerHub A D W Q X I) Status
  take_packet false rest now request = rest
  take_packet true rest now request =
      do_set_configuration meshcats now request >>= after_packet rest

  unfoldable pub read_packets :
      List (Packet (VisualizerHub A D W Q X I) Q C) → Action (VisualizerHub A D W Q X I) Status
  read_packets [] hub = pure status_ok hub
  read_packets (packet ∷ packets) hub =
      let before = packet.meanwhile hub in
      take_packet (is_active before.status) (read_packets packets) packet.now packet.request before

  -- The loop, and what the last critical section does to the hub.
  unfoldable pub stream_configurations :
      List (Packet (VisualizerHub A D W Q X I) Q C) → Action (VisualizerHub A D W Q X I) Status
  stream_configurations packets =
      read_packets packets >>= λ result. clear_streaming_state >> pure result

module _ {ℓ} {A D W Q X C I : Type ℓ} (meshcats : Meshcats A D W Q X C I) where
  -- What the others do to the hub during a stream.
  abbrev pub others :
      List (Packet (VisualizerHub A D W Q X I) Q C)
      → VisualizerHub A D W Q X I
      → VisualizerHub A D W Q X I
  others [] hub = hub
  others (packet ∷ packets) hub = others packets (packet.meanwhile hub)

  -- No packet finds the hub active.
  abbrev pub Unseen :
      List (Packet (VisualizerHub A D W Q X I) Q C) → VisualizerHub A D W Q X I → Type 0
  Unseen [] hub = Unit
  Unseen (packet ∷ packets) hub =
      (is_active (packet.meanwhile hub).status ≡ false) × Unseen packets (packet.meanwhile hub)

  dropped :
      (packets : List (Packet (VisualizerHub A D W Q X I) Q C)) (hub : VisualizerHub A D W Q X I)
      → Unseen packets hub
      → read_packets meshcats packets hub ≡ (returns status_ok, others packets hub)
  unfolding read_packets take_packet pure
  dropped [] hub unseen = refl
  dropped (packet ∷ packets) hub unseen =
      rw (unseen.0) (dropped packets (packet.meanwhile hub) unseen.1)

  -- A stream whose packets all come while the hub is not active is answered with OK, whatever the
  -- packets say, and does nothing to the hub but forget the times of the pushes.
  pub stream_configurations_dropped :
      (packets : List (Packet (VisualizerHub A D W Q X I) Q C)) (hub : VisualizerHub A D W Q X I)
      → Unseen packets hub
      → stream_configurations meshcats packets hub
        ≡ (returns status_ok, record (others packets hub) { robot_last_push_time = [] })
  unfolding stream_configurations ◌>>=◌ ◌>>◌ resume clear_streaming_state pure
  stream_configurations_dropped packets hub unseen = rw (dropped packets hub unseen) refl
