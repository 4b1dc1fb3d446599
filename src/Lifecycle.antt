-- ===== src/Lifecycle.antt =====
-- agent/v1_lifecycle.cpp: the reducer of the daily agent, one function for each case of the
-- `switch` of `ReduceV1Lifecycle`. The `std::uint32_t` mask of actions is a record with one
-- Boolean for each declared bit.
mod Engine
mod Demand
mod State
pub mod Invariant
pub mod Effects
pub mod Traces
mod Tests
pub use State.*
unfoldable pub use Demand.*
unfoldable pub use Engine.*
use native_ldac_xm5_windows.Prelude.{◌==◌, if◌then◌else◌, ℕ}

pub get_transport_retry_delay_ms : ℕ → ℕ
get_transport_retry_delay_ms completed =
    if completed == 1
    then 15000
    else if completed == 2
    then 30000
    else if completed == 3
    then 45000
    else 0

pub get_pcm_transport_retry_delay_ms : ℕ → ℕ
get_pcm_transport_retry_delay_ms completed =
    if completed == 1
    then 1000
    else if completed == 2
    then 2000
    else if completed == 3
    then 4000
    else 0

pub reduce_lifecycle : LifecycleState → LifecycleEvent → LifecycleStep
unfolding on_acl_connected on_acl_disconnected on_render_started on_render_stopped on_hfp_suspend
    on_hfp_resume on_engine_ready on_engine_exited on_transport_open_suppressed on_media_started
    on_media_stopped on_transport_retryable_failure on_transport_retry_due on_media_failed
reduce_lifecycle s acl_connected = on_acl_connected s
reduce_lifecycle s acl_disconnected = on_acl_disconnected s
reduce_lifecycle s watcher_lease_expired = on_acl_disconnected s
reduce_lifecycle s render_started = on_render_started s
reduce_lifecycle s render_stopped = on_render_stopped s
reduce_lifecycle s hfp_suspend_ldac = on_hfp_suspend s
reduce_lifecycle s hfp_resume_ldac = on_hfp_resume s
reduce_lifecycle s engine_ready = on_engine_ready s
reduce_lifecycle s engine_exited = on_engine_exited s
reduce_lifecycle s transport_open_suppressed = on_transport_open_suppressed s
reduce_lifecycle s media_started = on_media_started s
reduce_lifecycle s media_stopped = on_media_stopped s
reduce_lifecycle s transport_retryable_failure = on_transport_retryable_failure s
reduce_lifecycle s transport_retry_due = on_transport_retry_due s
reduce_lifecycle s media_failed = on_media_failed s
