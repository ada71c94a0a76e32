-- ===== src/Lab/Window.antt =====
-- lab/window.py: the observation boundary of the daemon logs and of the capture.
pub mod Timestamp
pub mod Recorder
pub mod Pcap
