-- ===== src/Router.antt =====
-- The package router: the classification of messages, and the choice of a node.
pub mod Classifier
pub mod LoadBalancer
