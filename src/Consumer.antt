-- ===== src/Consumer.antt =====
-- app/rabbitmq_consumer.py, one child for each group of handlers.
pub mod Pipelines
pub mod Changelog
pub mod Members
pub mod Private
pub mod Secrecy
pub mod Blocks
pub mod Access
pub mod Chunks
pub mod Events
pub mod Handle
pub mod Totality
pub mod Settles
