-- ===== src/HeartBeat.antt =====
-- mylib/heart_beat: the intrusive list and the element manager.
pub mod NodeList
pub mod ElementMgr
pub mod Service
