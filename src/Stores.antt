-- ===== src/Stores.antt =====
-- backend/src/state.rs: the small stores of the application state. No critical section of theirs can
-- panic, so their mutexes are never poisoned. Times are in nanoseconds.
pub mod TeamCache
pub mod Debounce
pub mod BatchUndo
pub mod ShopeeOauth
pub mod Recallable
pub mod Spacing
mod Examples
