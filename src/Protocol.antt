-- ===== src/Protocol.antt =====
-- The protocol of the App Server (crg/appserver.py): Schema validates requests, Client matches
-- responses to requests; the other modules prove.
pub mod Schema
pub mod Client
pub mod Waiting
pub mod Matching
pub mod Meets
pub mod Grants
pub mod Requests
