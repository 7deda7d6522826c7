-- ===== src/ErrorCodes.antt =====
-- What JavaScript can tell from the code and the data of an error, over all conversions into
-- `BdkError`.
pub mod Sections
pub mod Distinct
pub mod Shapes
