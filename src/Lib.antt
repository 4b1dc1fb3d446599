-- ===== src/Lib.antt =====
-- The state machines and protocols of the native LDAC agent for a WH-1000XM5 headset under Windows.
--
-- The agent is a set of processes around pure reducers: a host observes Windows and the Bluetooth
-- link, feeds what it sees into a reducer, and carries out the actions that the reducer returns.
-- The reducers decide when the audio engine and the transport are started and stopped, who may
-- act for the headset over AVRCP, and which volume and media commands are passed on. Below them
-- stands a C library for the protocols of the Bluetooth link, which a transport session drives over
-- a device, and the rate controller of the engine. The reducers, the protocols, two of the transport
-- sessions and the controller are what is modelled here; the processes, threads and devices around
-- them are not.
--
-- Which file models what (paths from the repository's root):
--
--   Lifecycle      agent/v1_lifecycle.{h,cpp}. `ReduceV1Lifecycle` is `reduce_lifecycle`, each case
--                  of its `switch` one `on_...` function, `V1LifecycleState` is `LifecycleState`.
--   Volume         agent/avrcp_absolute_volume_state.{h,cpp}, the inner reducer: the two volume
--                  scales, `BeginAvrcpAbsoluteVolumeSession` as `begin_volume_session`, and so on.
--   Volume.Gate    the same files, the authorization gate that owns the reducer:
--                  `AvrcpAbsoluteVolumeGateState` is `GateState`, `...ThroughGate` is
--                  `..._through_gate`, `InvalidateGateAuthorization` keeps its name.
--   PassThrough    agent/avrcp_passthrough_state.{h,cpp}: `ParseAvrcpPassThroughCommand` on a list
--                  of bytes, and the gate for key presses.
--   MediaSession   agent/v1_media_session_eligibility.{h,cpp} and agent/v1_avrcp_bootstrap_play.{h,cpp}.
--   Mapper         agent/v1_avrcp_action_mapper.{h,cpp}: `V1AvrcpControlMapperState` is
--                  `MapperState`, `V1Avrcp...` is `avrcp_...`. It runs PassThrough, Volume.Gate and
--                  MediaSession side by side and merges their decisions into one set of actions.
--   Hfp            agent/v1_hfp_switch_state.{h,cpp} and agent/v1_hfp_lifecycle_adapter.{h,cpp}: the
--                  switch between LDAC and calls, and the lifecycle events that it asks for.
--                  Hfp.Shadow is agent/v1_hfp_shadow_state.{h,cpp}, which makes the switch's input
--                  of what the capture monitor sees.
--   Executor       agent/v1_avrcp_action_executor.{h,cpp}: `V1AvrcpFeedEvent` is `feed_event`, and the
--                  replays feed it with what the parser makes of each line. The sink is a parameter.
--   RenderDemand   agent/v1_render_demand_tracker.{h,cpp}: `ObserveV1RenderDemand` is
--                  `observe_render_demand`, with two confirming samples.
--   Handoff        agent/v1_avrcp_handoff_state.{h,cpp}: who owns AVRCP while media plays.
--   OpenStability  agent/v1_transport_open_stability.{h,cpp}: the wait before the transport opens.
--   Protocol       protocol/: Codec is ldac_codec.{h,c}, Avdtp the packets of avdtp.{h,c} and Source
--                  its `avdtp_source_...`, Rtp is rtp_ldac.{h,c}, Avrcp the frames of avrcp.{h,c}
--                  and Observer its `avrcp_observer_...`. Prefixes of the names are dropped.
--   FilterDecoder  agent/v1_avrcp_filter_decoder.{h,cpp}, which reads recorded frames with
--                  Protocol.Avrcp into the events of Protocol.Observer.
--   Transport      agent/v1_transport_configuration_session.{h,cpp}: `RunV1TransportConfigurationOnce`
--                  is `run_configuration`, each part of it between two calls one function. It runs
--                  Protocol.Source over Transport.Backend, the interface of the device.
--                  Discovery is agent/v1_transport_session.{h,cpp}: `RunV1TransportDiscoveryOnce` is
--                  `run_discovery`.
--   Engine         engine/: Abr is src/abr_controller.c and its header.
--   Generation     `IsNewerGeneration`, which three of these files declare with one text, and the
--                  increment that skips 0.
--   Prelude        Boolean tests on native numbers, enumerators with their C++ numbers, lists.
--
-- How the code is read. A function that changes its state through a pointer returns the new state
-- with its result; the test of that pointer against null has no counterpart, since a state is a
-- value. A mask of actions is a record with one Boolean per declared bit, so masks with undeclared
-- bits do not exist. An enum class is a data type of its declared enumerators; values outside of
-- them, which the sources only meet by a cast, do not exist. Prefixes such as `V1` and `Avrcp` are
-- dropped where the module says the same. The lemmas of a module stand in its child modules, the
-- inputs that the theorems are tried at in its module Tests.
--
-- The C library fills structures and buffers that its callers pass in. A packet is the list of its
-- bytes, so a size is the length of a list, and a function that writes returns what it wrote: the
-- empty list is the size 0 of a refusal. A parser returns its structure or the status. A buffer
-- and its size are one value, so a null buffer has no counterpart. The device behind a session,
-- and the probe that cancels it, are a parameter, as is the sink of the executor: a record of
-- functions that take the state of the world and return it with their answer. No property assumes
-- anything of it.
--
-- Bounds. Numbers are natural numbers. A 64-bit sum is reduced by `u64`, a byte by `u8`; an epoch
-- is incremented by `next_nonzero`, which goes from the largest value to 1. Where a theorem speaks
-- of many steps it bounds the epochs, or the lines of a log, that it needs. Three definitions run
-- on fuel. `find_services` gets the number of bytes, and each of its rounds takes two of them.
-- `exchange_loop` gets 132 rounds: a discovery, at most two queries for each of 63 sinks, the
-- configuration and the opening are fewer. `dispatch_authorized_actions`, which calls itself for
-- what the sink reads back, gets a depth of 2. All three are proved to be enough. The reducers
-- have no loops.
--
-- Not modelled: the hosts, workers, drivers and tools around the state machines, which are input and
-- output; the limiter and the fade envelope, which compute with floating-point samples; the
-- parsers of logged lines and the table of virtual keys of the action executor; the
-- silence and PCM sessions of the transport; the encoder, which wraps libldac; the C
-- drivers; the logs, and the names that enumerators are printed with.
pub mod Prelude
pub mod Lifecycle
pub mod Generation
pub mod Volume
pub mod PassThrough
pub mod Hfp
pub mod Handoff
pub mod MediaSession
pub mod OpenStability
pub mod Mapper
pub mod Executor
pub mod RenderDemand
pub mod Engine
pub mod FilterDecoder
pub mod Protocol
pub mod Transport
