-- ===== src/Fleet.antt =====
-- services/fleet-service/src/fleet_service: the tables, the domain rules and the vehicle service.
pub mod Plate
pub mod Tables
pub mod Session
pub mod Vehicle
pub mod Spec
pub mod Formulas
pub mod Internal
