-- ===== src/Console.antt =====
-- dashboard/src/lib and the components of dashboard/src/components and dashboard/src/app: what the
-- console computes, and what its forms and pages keep and send.
pub mod Data
pub mod Api
pub mod Format
pub mod Status
pub mod Keys
pub mod Submit
pub mod NewQueue
pub mod Provider
pub mod Explorer
pub mod QueueDrawer
pub mod Palette
pub mod Session
pub mod Overview
pub mod Pages
