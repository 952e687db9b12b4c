-- ===== src/Oauth2/Service/Lifecycle.antt =====
-- The methods of the service together: what holds of the two maps whatever is called in which
-- order, and what one call establishes for a later one.
pub mod Consistent
pub mod Reachable
pub mod RoundTrip
pub mod Revocation
